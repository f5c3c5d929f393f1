-- ===== src/News.antt =====
-- News articles: internal/domain/news.go, internal/repository/news.go and internal/service/news.go.
pub mod Article
pub mod Service
pub mod Publishing
pub mod Histories
pub mod Access
mod Tests

-- ===== src/Title.antt =====
-- The plugin that announces the titles of links, plugins/src/title.
pub mod Urls
pub mod Requests
pub mod Search
mod Tests

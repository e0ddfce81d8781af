-- ===== src/Builtin.antt =====
-- plugins/builtin and plugins/__init__.py: the plugins that the program ships, and their list.
pub mod Web
pub mod Values
pub mod Patterns
pub mod Proposing
pub mod CrtSh
pub mod Shodan
pub mod VirusTotal
pub mod Wayback
pub mod Searches
pub mod GithubPublic
pub mod OpenCorporates
pub mod Hibp
pub mod Urlhaus
pub mod DnsWhois
pub mod Shipped
pub mod Endpoints
pub mod Named
pub mod Judged
pub mod Closed
pub mod Resolved
pub mod Caps
pub mod Found
pub mod Keys
pub mod Retries
mod Tests

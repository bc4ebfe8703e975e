-- ===== src/Sparql.antt =====
-- src/sta/src/sparql: from a request for a resource to SPARQL queries and back.
pub mod Terms
pub mod Codes
pub mod Handler
pub mod Filters
pub mod Queries
pub mod Transform
pub mod Response
pub mod Namespaces

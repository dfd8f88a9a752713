-- ===== src/Examples.antt =====
-- examples: the programs that come with the library.
pub mod EchoServer
pub mod EchoClient
pub mod Url
pub mod HttpsClient
pub mod AsyncHttpsClient

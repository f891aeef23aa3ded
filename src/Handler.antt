-- ===== src/Handler.antt =====
-- A request from its arrival to its response: frontik/handler_asgi.py, with
-- frontik/tornado_connection_handler.py and frontik/frontik_response.py.
pub mod Body
pub mod Exchange
pub mod Serve
mod Tests

-- ===== src/Adapters/Gorilla.antt =====
-- wscengine/wsadapters/gorilla/gorilla_websocket_connection_adapter.go. The library
-- gorilla/websocket is a parameter. The adapter's mutex makes each critical section one step; Read
-- and Ping, which leave the mutex before they wait, are taken as one step and as two.
pub mod Listeners
pub mod Adapter
pub mod Laws
pub mod Ping
pub mod Races

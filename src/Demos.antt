-- ===== src/Demos.antt =====
-- network/demo1_socket.cpp, demo2_select.cpp and demo3_epoll.cpp.
pub mod Socket
pub mod Select
pub mod Ready
pub mod Mixed
pub mod Epoll
pub mod Padded
mod Tests

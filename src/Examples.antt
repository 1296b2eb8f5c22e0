-- ===== src/Examples.antt =====
-- examples/: the programs that show the use of the library.
pub mod Trunet
pub mod Tru
pub mod Udp
pub mod Getch

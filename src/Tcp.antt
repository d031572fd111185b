-- ===== src/Tcp.antt =====
-- TcpPacket.h, TcpPacket.cpp and TcpPacketView.h: the TCP header, the segment and its view.
pub mod Header
pub mod Raw
pub mod Packet
pub mod View
pub mod Flags
pub mod Mirror
pub mod RoundTrip
pub mod Checked
pub mod Print
mod Tests

-- ===== src/Ipv4.antt =====
-- IPv4Packet.h, IPv4Packet.cpp and IPv4PacketView.h: the IPv4 header, the datagram and its view.
pub mod Header
pub mod Raw
pub mod Packet
pub mod View
pub mod Mirror
pub mod RoundTrip
pub mod Checked
pub mod Print
pub mod Text
mod Tests

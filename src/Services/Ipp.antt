-- ===== src/Services/Ipp.antt =====
-- honeytrap/services/ipp: the Internet Printing Protocol, its attributes and messages.
pub mod Values
pub mod Message

-- ===== src/Classes.antt =====
-- src/bpp_include/bpp_class.cpp over an explicit store: methods and data members are shared
-- objects of C++, so a class holds their addresses and a write is seen by every class that shares
-- them. Only the fields that this file reads or writes are kept of each object.
pub mod Store
pub mod Members
pub mod Inherit
pub mod Lookup

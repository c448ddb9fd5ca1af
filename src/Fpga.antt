-- ===== src/Fpga.antt =====
-- The FPGA configuration of a node: node/FPGAconfig/alt_fpga_manager.c with the registers of
-- alt_fpgamgr.h, as node/FPGAconfig/writeConfig.hpp calls it. The driver runs over registers that
-- hps.h maps into the process; it is built without DMA and without the DCLK steps.
pub mod Bus
pub mod Bits
pub mod Manager
pub mod Data
pub mod Configure
pub mod Polling
pub mod Axi
pub mod Stream
pub mod Control
pub mod Steps
pub mod Released
pub mod Entry
pub mod Tests

-- ===== src/Ahci.antt =====
-- drivers/ahci/src: the driver of SATA host adapters.
pub mod Prdt

-- ===== src/Elf.antt =====
-- lib/elfload/src: loading the image of an ELF file.
pub mod Load
pub mod Relocation

-- ===== src/Geth.antt =====
-- go-ethereum, uint256 and kzg4844, as the repository calls them: the structs whose fields it reads
-- and fills (`Types`), the functions that it calls as the fields of an interface (`Interface`), what
-- their documentation promises (`Lawful`), and a value that keeps the promises (`Sample`).
pub mod Types
pub mod Interface
pub mod Lawful
pub mod Sample

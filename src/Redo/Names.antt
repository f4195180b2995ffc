-- ===== src/Redo/Names.antt =====
-- What a creation, a removal and a rename logged is done to the file system at the commit.
use backup_lfs.Base.{List}
use backup_lfs.Server.{Server}

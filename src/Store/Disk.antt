-- ===== src/Store/Disk.antt =====
-- std::fs over the store's tree: the dirs of a tree, and the file at an indexed path.
use saros.Base.{Option, none, some, Text, dec_text}
use saros.Base.Map
use saros.Base.Map.{Map}
use saros.Store.Names.{Key, dec_key}
use saros.Store.State.{
  Bytes, Tree, firmware_tree, staging_tree, BlobPath, incoming_file, version_file, VersionDir,
  PoolFile, Disk,
}

abbrev pub content_of : Option PoolFile → Option Bytes
content_of none = none
content_of (some f) = some f.content

module _ {M : Type 0} where
  abbrev pub dirs : Tree → Disk M → Map Key (VersionDir M)
  dirs firmware_tree disk = disk.firmware
  dirs staging_tree disk = disk.staging

  abbrev pub with_dirs : Tree → Map Key (VersionDir M) → Disk M → Disk M
  with_dirs firmware_tree ds disk = record disk { firmware = ds }
  with_dirs staging_tree ds disk = record disk { staging = ds }

  abbrev pub file_in : Text → Option (VersionDir M) → Option Bytes
  file_in name none = none
  file_in name (some dir) = Map.get dec_text name dir.files

  unfoldable pub read_path : Disk M → BlobPath → Option Bytes
  read_path disk (incoming_file name) = content_of (Map.get dec_text name disk.incoming)
  read_path disk (version_file tree key file) = file_in file (Map.get dec_key key (dirs tree disk))

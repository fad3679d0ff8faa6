-- ===== src/Tests/Machine.antt =====
-- An operating system for the runs: nothing fails, MkdirTemp gives the prefix with a 1, every file is
-- there with ten bytes and an old time.
use lopen.Base.{Bool, true, false, none, some, [], ◌∷◌, ◌^◌, Bytes, codes, Map, Int64}
use lopen.Io.{Codec}
use lopen.Os.{Os, FileInfo, seen, absent}
use lopen.Index.{Entry}

abbrev pub file : FileInfo
file = record { size = 10; mtime = 5; regular = true }

abbrev pub calm : Os
calm = record {
  fault = λ log c. none;
  temp_name = λ log base prefix. codes "/m/.staging/req-1";
  exists = λ log p. true;
  stat = λ log p. some file;
  walk = λ log p. seen file ∷ [];
  read_dir = λ log p. [];
  read_file = λ log p. absent;
  in_use = λ log p. false;
  dirs = λ log root. root ∷ [];
  is_empty_dir = λ log p. false;
  now = λ log. 10 ^ 18;
}

abbrev pub map_json : {A : Type 0} → Codec (Map A)
map_json = record { marshal = λ m. some (codes "{}"); unmarshal = λ b. none }

abbrev pub entry_at : Bytes → Bool → Int64 → Entry
entry_at rel dir size = record {
  rel = rel;
  dir = dir;
  size = size;
  sync_mod = 5;
  last_sync = 5;
  last_used = 5;
}

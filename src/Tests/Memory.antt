-- ===== src/Tests/Memory.antt =====
-- A small store for the tests. Its world is the contents of the keys; what List returns is fixed.
use vire_fs.Base.{ℕ, Bool, true, false, Option, none, some, List, length}
use vire_fs.Base.Int.{pos}
use vire_fs.Bytes.{Bytes}
use vire_fs.Dict.{lookup, insert, erase}
use vire_fs.Errors.{Error, sentinel, not_found, not_supported, Result, ok, err}
use vire_fs.Effect.{Context}
use vire_fs.Fs.{Fs, FileInfo, no_info, ReadCloser}

abbrev pub World : Type 0
World = List (Bytes × Bytes)

abbrev pub live : Context World
live w = none

abbrev pub open_bytes : Option Bytes → Result (ReadCloser World)
open_bytes none = err (sentinel not_found)
open_bytes (some b) = ok (record { read = λ v. ((b, none), v); close = λ v. v })

abbrev pub store : Bytes → (Bytes × Option Error) × World → Result (Unit {0}) × World
store key ((b, none), w) = (ok tt, insert key b w)
store key ((b, some e), w) = (err e, w)

abbrev pub remove : Bytes → Option Bytes → World → Result (Unit {0}) × World
remove key none w = (err (sentinel not_found), w)
remove key (some b) w = (ok tt, erase key w)

abbrev pub info_of : Bytes → Option Bytes → Result FileInfo
info_of key none = err (sentinel not_found)
info_of key (some b) = ok (record no_info { key = key; size = pos (length b) })

abbrev pub is_some : Option Bytes → Bool
is_some none = false
is_some (some b) = true

abbrev pub listed : Option (List FileInfo) → Result (List FileInfo)
listed none = err (sentinel not_found)
listed (some files) = ok files

-- The listing is a table from prefixes to entries.
abbrev pub memory : ℕ → List (Bytes × List FileInfo) → Fs World
memory identity listing = record {
  identity = identity;
  get = λ ctx key w. (open_bytes (lookup key w), w);
  put = λ ctx key r opts w. store key (r w);
  delete = λ ctx key w. remove key (lookup key w) w;
  list = λ ctx prefix w. (listed (lookup prefix listing), w);
  stat = λ ctx key w. (info_of key (lookup key w), w);
  access = λ ctx key w. (err (sentinel not_supported), w);
  exists = λ ctx key w. (ok (is_some (lookup key w)), w);
  copier = none;
  batch_deleter = none;
}

abbrev pub file_at : Bytes → FileInfo
file_at key = record no_info { key = key }

abbrev pub dir_at : Bytes → FileInfo
dir_at key = record no_info { key = key; is_dir = true }

-- ===== src/Local/Keyed.antt =====
-- Where the clean keys of a local store lie on the disk.
use mathlib.Core.List.{append_cancel_left}
use vire_fs.Base.{ℕ, none, List, ◌∷◌, All, ◌++◌, All-append, ◌≡◌, ap, sym, ◌∙◌}
use vire_fs.Bytes.{Bytes, join}
use vire_fs.GoPath.{join_path}
use vire_fs.GoPath.Laws.{IsName}
use vire_fs.Errors.{ok}
use vire_fs.Key.Laws.{IsKey, clean_key_of_IsKey}
use vire_fs.Fs.Keyed.{Apart}
use vire_fs.Local.{Os, LocalFs, full_path}
use vire_fs.Local.Paths.{path_of, full_path-path_of, join_path-path_of, join_injective}

-- The root is the absolute path of its names, and keys are used as they are.
pub record IsRooted (l : LocalFs) : Type 0 where
  pub names : List Bytes
  pub named : All IsName names
  pub root : l.root ≡ path_of names
  pub plain : l.key_func ≡ none

abbrev pub path : LocalFs → Bytes → Bytes
path l key = join_path l.root key

module _ (l : LocalFs) (rooted : IsRooted l) where
  path-path_of : (key : Bytes) (k : IsKey key) → path l key ≡ path_of (rooted.names ++ k.segments)
  path-path_of key k =
      ap (path l) k.joined
      ∙ ap (λ r. join_path r (join k.segments)) rooted.root
      ∙ join_path-path_of rooted.names k.segments rooted.named k.named

  pub path-Apart : Apart (path l)
  path-Apart key q k k' same =
      let at : path_of (rooted.names ++ k'.segments) ≡ path_of (rooted.names ++ k.segments) =
        sym (path-path_of q k') ∙ same ∙ path-path_of key k in
      let one =
        join_injective (rooted.names ++ k'.segments) (rooted.names ++ k.segments)
          (All-append IsName rooted.names k'.segments rooted.named k'.named)
          (All-append IsName rooted.names k.segments rooted.named k.named) (tail at) in
      k'.joined
      ∙ ap join (append_cancel_left rooted.names k'.segments k.segments one)
      ∙ sym k.joined
    where
      tail : {c d : ℕ} {s t : Bytes} → c ∷ s ≡ d ∷ t → s ≡ t
      tail e = cc

  pub located :
      {W : Type 0} (os : Os W) (key : Bytes) (w : W)
      → IsKey key
      → full_path os l key w ≡ (ok (path l key), w)
  located os key w k =
      full_path-path_of os l rooted.names k.segments key w rooted.named k.named rooted.root
        rooted.plain (clean_key_of_IsKey k ∙ ap ok k.joined)
      ∙ ap (λ p. (ok p, w)) (sym (path-path_of key k))

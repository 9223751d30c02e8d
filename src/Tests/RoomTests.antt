-- ===== src/Tests/RoomTests.antt =====
-- A mount table over two stores that lie in one world, each below its name.
use vire_fs.Base.{
  ℕ, Option, none, some, [], ◌∷◌, ◌++◌, ◌≡◌, ◌≢◌, refl, sym, ap, ◌∙◌, subst, ◌⊎◌, inl, inr,
  Bool-cases, arith,
}
use vire_fs.Bytes.{
  Bytes, codes, slash, dot, equal, equal_iff, equal_refl, equal_ne, before_slash, after_slash,
}
use vire_fs.Bytes.Segments.{NoSlash, before_slash-NoSlash, after_slash-join}
use vire_fs.Dict.{lookup, insert, lookup-insert, lookup-erase}
use vire_fs.Errors.{Error, ok}
use vire_fs.Fs.{Fs, Reader, ReadCloser}
use vire_fs.Fs.Contents.{Contents, Unchanged, UnchangedBut, Opened, Keeps}
use vire_fs.Fs.Store.{IsStore, copier-eq}
use vire_fs.GoPath.Laws.{IsName}
use vire_fs.Key.{clean_key}
use vire_fs.Mount.{MountTable, as_fs}
use vire_fs.Mount.Parts.{whole, IsRoute, Wrote, Mounted}
use vire_fs.Mount.Store.{as_fs-IsStore_of_parts}
use vire_fs.Tests.Memory.{World, live, memory, open_bytes, store, remove}
use vire_fs.Tests.Promises.{held, disk-get, disk-deleted, disk-kept, copied}
use vire_fs.Tests.Bucket.{copy_to}

abbrev under : Bytes → Bytes → Bytes
under name key = name ++ slash ∷ key

abbrev room : ℕ → Bytes → Fs World
room identity name = record (memory identity []) {
  get = λ ctx key w. (open_bytes (lookup (under name key) w), w);
  put = λ ctx key r opts w. store (under name key) (r w);
  delete = λ ctx key w. remove (under name key) (lookup (under name key) w) w;
  copier = some (λ ctx a b w. copy_to (under name b) (lookup (under name a) w) w);
}

abbrev house : MountTable World
house = record { mounts = (codes "a", room 1 (codes "a")) ∷ (codes "b", room 2 (codes "b")) ∷ [] }

abbrev furnished : Bytes → Contents World
furnished name w key = lookup (under name key) w

abbrev Proper : Bytes → Bytes → Type 0
Proper name key = NoSlash name × (key ≢ [])

-- A key with something behind its first slash is what it is split into.
rejoin : (q : Bytes) → after_slash q ≢ [] → under (before_slash q) (after_slash q) ≡ q
rejoin [] proper = absurd (proper refl)
rejoin (c ∷ q) proper = ground (arith, rejoin q)

under-other :
    (name key q : Bytes)
    → Proper name key
    → q ≢ under name key
    → under (before_slash q) (after_slash q) ≢ under name key
under-other name key q (plain, proper) ne same =
    let rest : after_slash q ≡ key =
      sym (after_slash-join (before_slash q) (after_slash q ∷ []) (before_slash-NoSlash q))
      ∙ ap after_slash same
      ∙ after_slash-join name (key ∷ []) plain in
    ne (sym (rejoin q (λ nothing. proper (sym rest ∙ nothing))) ∙ same)

-- What changes the world below the name only.
whole-UnchangedBut :
    (name key : Bytes) (w v : World)
    → Proper name key
    → UnchangedBut held (under name key) w v
    → UnchangedBut (whole furnished) (under name key) w v
whole-UnchangedBut name key w v proper h q ne =
    h (under (before_slash q) (after_slash q)) (under-other name key q proper ne)

whole-Unchanged : (w v : World) → Unchanged held w v → Unchanged (whole furnished) w v
whole-Unchanged w v h q = h (under (before_slash q) (after_slash q))

which :
    (name : Bytes) (fs : Fs World)
    → lookup name house.mounts ≡ some fs
    → ((name ≡ codes "a") × (room 1 name ≡ fs)) ⊎ ((name ≡ codes "b") × (room 2 name ≡ fs))
unfolding lookup
which name fs h = elim (Bool-cases (equal name (codes "a"))) [
  | inl first ↦
      let e = (equal_iff name (codes "a")).0 first in inl (e, ap (room 1) e ∙ cc (rw first at h))
  | inr other ↦ elim (Bool-cases (equal name (codes "b"))) [
    | inl second ↦
        let e = (equal_iff name (codes "b")).0 second in
        inr (e, ap (room 2) e ∙ cc (rw (other, second) at h))
    | inr neither ↦ cc (rw (other, neither) at h)
  ]
]

a_room :
    (name : Bytes) (fs : Fs World)
    → lookup name house.mounts ≡ some fs
    → (n : ℕ) × (room n name ≡ fs)
a_room name fs h = elim (which name fs h) [ inl (_, e) ↦ (1, e) | inr (_, e) ↦ (2, e) ]

room-Opened :
    (name key : Bytes) (rc : ReadCloser World) (v : World)
    → Opened held (under name key) v rc
    → Opened (furnished name) key v rc
room-Opened name key rc v o = record {
  reads = o.reads;
  keeps = λ w q. o.keeps w (under name q);
  closes = λ w q. o.closes w (under name q);
}

room-Wrote :
    (name key : Bytes) (r : Reader World) (w v : World) (x : (Bytes × Option Error) × World)
    → Proper name key
    → Keeps (whole furnished) r
    → r w ≡ x
    → store (under name key) x ≡ (ok tt, v)
    → Wrote furnished r name key w v
room-Wrote name key r w v ((b, some e), u) proper still given h = cc
room-Wrote name key r w v ((b, none), u) proper still given h =
    let world : insert (under name key) b u ≡ v = ap (λ y. y.1) h in
    record {
      at = w;
      bytes = b;
      given = ap (λ y. y.0) given;
      calm = λ q ne. refl;
      holds =
          ap (lookup (under name key)) (sym world)
          ∙ rw (lookup-insert (under name key) (under name key) b u, equal_refl (under name key))
              refl;
      others = λ q ne.
          let at_q = under (before_slash q) (after_slash q) in
          ap (lookup at_q) (sym world)
          ∙ rw
              (
                lookup-insert (under name key) at_q b u,
                equal_ne at_q (under name key) (under-other name key q proper ne),
              )
              refl
          ∙ ap (λ y. lookup at_q y.1) (sym given)
          ∙ still w q;
    }

two_names :
    (name other : Bytes) (fs fs' : Fs World)
    → lookup name house.mounts ≡ some fs
    → lookup other house.mounts ≡ some fs'
    → fs.identity ≡ fs'.identity
    → name ≡ other
two_names name other fs fs' h h' same = by_which (which name fs h) (which other fs' h')
  where
    by_which :
        ((name ≡ codes "a") × (room 1 name ≡ fs)) ⊎ ((name ≡ codes "b") × (room 2 name ≡ fs))
        → ((other ≡ codes "a") × (room 1 other ≡ fs'))
          ⊎ ((other ≡ codes "b") × (room 2 other ≡ fs'))
        → name ≡ other
    by_which (inl (e, _)) (inl (e', _)) = e ∙ sym e'
    by_which (inr (e, _)) (inr (e', _)) = e ∙ sym e'
    by_which (inl (_, e)) (inr (_, e')) =
        let one : ◌≡◌ {A = ℕ} 1 2 =
          ap (λ (s : Fs World). s.identity) e ∙ same ∙ ap (λ (s : Fs World). s.identity) (sym e') in
        cc
    by_which (inr (_, e)) (inl (_, e')) =
        let one : ◌≡◌ {A = ℕ} 2 1 =
          ap (λ (s : Fs World). s.identity) e ∙ same ∙ ap (λ (s : Fs World). s.identity) (sym e') in
        cc

house-Mounted : Mounted Proper furnished live house
house-Mounted = record {
  on_get = λ name fs key rc w v m proper h.
      let (n, e) = a_room name fs m in
      let (calm, o) =
        disk-get (under name key) (lookup (under name key) w) rc w v refl
          (ap (λ (s : Fs World). s.get live key w) e ∙ h) in
      (
        whole-Unchanged w v calm,
        room-Opened name key rc v o,
        (λ u. whole-Unchanged u (rc.read u).1 (o.keeps u)),
        λ u. whole-Unchanged u (rc.close u) (o.closes u),
      );
  on_put = λ name fs key r opts w v m proper still h.
      let (n, e) = a_room name fs m in
      room-Wrote name key r w v (r w) proper still refl
        (ap (λ (s : Fs World). s.put live key r opts w) e ∙ h);
  on_delete = λ name fs key w m proper.
      let (n, e) = a_room name fs m in
      subst
        (λ (s : Fs World).
          UnchangedBut (whole furnished) (under name key) w (s.delete live key w).1)
        e
        (whole-UnchangedBut name key w (remove (under name key) (lookup (under name key) w) w).1
          proper (disk-kept (under name key) (lookup (under name key) w) w));
  deleted = λ name fs key w v m proper h.
      let (n, e) = a_room name fs m in
      let at = under name key in
      ap (lookup at)
        (sym (disk-deleted at (lookup at w) w v (ap (λ (s : Fs World). s.delete live key w) e ∙ h)))
      ∙ rw (lookup-erase at at w, equal_refl at) refl;
  on_copy = λ name fs native a b w v m has proper_a proper_b ne h.
      let (n, e) = a_room name fs m in
      let own = copier-eq (ap (λ (s : Fs World). s.copier) e ∙ has) in
      let (same, others, found) =
        copied (under name b) (under name a) (lookup (under name a) w) w v refl
          (ap (λ f. f live a b w) (sym own) ∙ h) in
      (same, whole-UnchangedBut name b w v proper_b others, found);
  one_name = two_names;
}

short_name : (c : ℕ) → c ≢ slash → c ≢ dot → IsName (c ∷ [])
short_name c no_slash no_dot = record {
  not_empty = λ e. cc;
  not_cur = λ e. no_dot (cc e);
  not_parent = λ e. cc;
  no_slash = (no_slash, tt);
}

-- A key that goes to the first store.
route : IsRoute Proper house (codes "a/x")
unfolding clean_key lookup equal
route = record {
  name = codes "a";
  first = codes "x";
  rest = [];
  store = room 1 (codes "a");
  leads = record {
    cleaned = refl;
    mount_name = short_name 97 (λ e. cc) (λ e. cc);
    names = (short_name 120 (λ e. cc) (λ e. cc), tt);
  };
  normal = refl;
  mounted = refl;
  valid = (((λ e. cc), tt), λ e. cc);
}

as_fs-IsStore_of_parts_example :
    IsStore
      (IsRoute Proper house)
      (Keeps (whole furnished))
      (whole furnished)
      live
      (as_fs 9 (λ m. m) house)
as_fs-IsStore_of_parts_example =
    as_fs-IsStore_of_parts Proper furnished live house house-Mounted 9 (λ m. m)

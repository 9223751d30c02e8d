-- ===== src/Fs/Presence.antt =====
-- How Exists goes with Stat: the contract that stores meet whose Exists looks the key up as Stat does.
use vire_fs.Base.{Bool, true, false, ◌≡◌, if◌then◌else◌}
use vire_fs.Bytes.{Bytes}
use vire_fs.Errors.{
  Error, op_error, not_found, invalid_key, errors_is, errors_is-same_sentinel, Result, ok, err,
}
use vire_fs.Fs.{FileInfo}

-- The cause of an error, in the context of Exists.
abbrev pub of_exists : Bytes → Error → Error
of_exists key (op_error _ _ e) = op_error "Exists" key e
of_exists key e = e

abbrev pub found_by_stat : {W : Type 0} → Bytes → Result FileInfo × W → Result Bool × W
found_by_stat key (ok info, w) = (ok true, w)
found_by_stat key (err e, w) =
    (if errors_is e not_found then ok false else err (of_exists key e), w)

pub invalid-not_found : (e : Error) → errors_is e invalid_key ≡ true → errors_is e not_found ≡ false
invalid-not_found e h = errors_is-same_sentinel e invalid_key not_found h

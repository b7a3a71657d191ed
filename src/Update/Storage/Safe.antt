-- ===== src/Update/Storage/Safe.antt =====
-- internal/application/commands/update/internal/engine/storage.go: the files after an update was put on disk.
use spec_cli.Common.{
  String, ◌≡◌, refl, ◌∙◌, ap, Bool, false, Option, none, some, arith, ◌⊎◌, inl, inr,
}
use spec_cli.Common.{◌==◌, string_eq, if◌then◌else◌}
use spec_cli.Common.Dict.{lookup, insert, erase, lookup-insert, lookup-erase}
use spec_cli.Errors.{AppError, Result, ok, fail}
use spec_cli.Delete.{Disk}
use spec_cli.Update.Storage.{
  Answer, succeeded, refused, Created, created, not_created, Answers, moved, dropped, fill_temp,
  temp_file, new_file, drop_if_failed, write_temp_file, renamed, commit_atomically, no_directory,
  in_directory, write_atomically, write_new,
}

-- The path is the one that the call created.
abbrev pub is_path : Created → String → Bool
is_path (created t) p = t == p
is_path (not_created _) p = false

-- What a path holds, where the payload is at the target and everything else is as before.
abbrev pub with_payload : String → String → Disk → String → Option String
with_payload target payload disk p = if target == p then some payload else lookup p disk

pub lookup-moved :
    (from to p content : String) (disk : Disk)
    → lookup from disk ≡ some content
    → lookup p (moved from to disk)
      ≡ (if to == p then some content else if from == p then none else lookup p disk)
unfolding moved
lookup-moved from to p content disk e = rw e (
    lookup-insert p to content (erase from disk)
    ∙ ap (λ o. if to == p then some content else o) (lookup-erase p from disk))

pub lookup-dropped_other :
    (a : Answer) (path p : String) (disk : Disk)
    → (path == p) ≡ false
    → lookup p (dropped a path disk) ≡ lookup p disk
unfolding dropped
lookup-dropped_other succeeded path p disk n = lookup-erase p path disk ∙ rw n refl
lookup-dropped_other (refused f) path p disk n = refl

pub lookup-insert_other :
    (path p content : String) (disk : Disk)
    → (path == p) ≡ false
    → lookup p (insert path content disk) ≡ lookup p disk
lookup-insert_other path p content disk n = lookup-insert p path content disk ∙ rw n refl

pub lookup-insert_here :
    (path content : String) (disk : Disk) → lookup path (insert path content disk) ≡ some content
lookup-insert_here path content disk = lookup-insert path path content disk ∙ ground arith

abbrev pub Unchanged : (String → Bool) → Disk → Disk → Type 0
Unchanged is_temp before after = (p : String) → is_temp p ≡ false → lookup p after ≡ lookup p before

fill_temp-cases :
    (write sync close : Answer) (written temp payload : String) (disk : Disk)
    → let out = fill_temp write sync close written temp payload disk in
      (out ≡ (ok temp, insert temp payload disk))
      ⊎ ((e : AppError) × (after : Disk) × (out ≡ (fail e, after))
          × Unchanged (λ p. temp == p) disk after)
unfolding fill_temp
fill_temp-cases (refused f) sync close written temp payload disk =
    inr (_, _, refl, λ p n. lookup-insert_other temp p written disk n)
fill_temp-cases succeeded (refused f) close written temp payload disk =
    inr (_, _, refl, λ p n. lookup-insert_other temp p payload disk n)
fill_temp-cases succeeded succeeded (refused f) written temp payload disk =
    inr (_, _, refl, λ p n. lookup-insert_other temp p payload disk n)
fill_temp-cases succeeded succeeded succeeded written temp payload disk = inl refl

-- The temporary file was made and holds the payload, or the run has failed.
abbrev pub Filled : Created → String → Disk → Result String × Disk → Type 0
Filled c payload disk out =
    ((temp : String) × (c ≡ created temp) × (out ≡ (ok temp, insert temp payload disk)))
    ⊎ ((e : AppError) × (after : Disk) × (out ≡ (fail e, after)) × Unchanged (is_path c) disk after)

pub temp_file-Filled :
    (c : Created) (os : Answers) (payload : String) (disk : Disk)
    → Filled c payload disk (temp_file c os payload disk)
unfolding temp_file
temp_file-Filled (not_created f) os payload disk = inr (_, _, refl, λ p n. refl)
temp_file-Filled (created temp) os payload disk =
    elim (fill_temp-cases os.write os.sync os.close os.written temp payload disk) [
      | inl e ↦ inl (temp, refl, e)
      | inr failed ↦ inr failed
    ]

new_file-Filled :
    (c : Created) (os : Answers) (payload : String) (disk : Disk)
    → Filled c payload disk (new_file c os payload disk)
unfolding new_file drop_if_failed
new_file-Filled (not_created f) os payload disk = inr (_, _, refl, λ p n. refl)
new_file-Filled (created temp) os payload disk =
    elim (fill_temp-cases os.write os.sync os.close os.written temp payload disk) [
      | inl e ↦ inl (temp, refl, ap (drop_if_failed os.drop_temp temp) e)
      | inr (e, after, is, same) ↦ inr (
        e,
        dropped os.drop_temp temp after,
        ap (drop_if_failed os.drop_temp temp) is,
        λ p n. lookup-dropped_other os.drop_temp temp p after n ∙ same p n,
      )
    ]

-- A write that is atomic for every path but the temporary one: the payload is at the target and all else
-- is as before, or the write has failed and all is as before.
abbrev IsAtomic : Created → String → String → Disk → Result (Unit {0}) × Disk → Type 0
IsAtomic c target payload disk out =
    ((out.0 ≡ ok tt)
      × ((p : String) → is_path c p ≡ false → lookup p out.1 ≡ with_payload target payload disk p))
    ⊎ ((e : AppError) × (out.0 ≡ fail e)
        × ((p : String) → is_path c p ≡ false → lookup p out.1 ≡ lookup p disk))

renamed-IsAtomic :
    (a drop : Answer) (temp target payload : String) (disk : Disk)
    → IsAtomic
        (created temp)
        target
        payload
        disk
        (renamed a drop temp target (insert temp payload disk))
unfolding renamed
renamed-IsAtomic (refused f) drop temp target payload disk = inr (
  _,
  refl,
  λ p n. lookup-dropped_other drop temp p _ n ∙ lookup-insert_other temp p payload disk n,
)
renamed-IsAtomic succeeded drop temp target payload disk = inl (
  refl,
  λ p n.
      lookup-dropped_other drop temp p _ n
      ∙ lookup-moved temp target p payload (insert temp payload disk)
          (lookup-insert_here temp payload disk)
      ∙ rw (n, lookup-insert_other temp p payload disk n) refl,
)

commit_atomically-IsAtomic :
    (c : Created) (os : Answers) (target payload : String) (disk : Disk)
    (out : Result String × Disk)
    → Filled c payload disk out
    → IsAtomic c target payload disk (commit_atomically os target out)
unfolding commit_atomically
commit_atomically-IsAtomic c os target payload disk out (inl (temp, made, e)) =
    rw (e, made) (renamed-IsAtomic os.rename_target os.drop_temp temp target payload disk)
commit_atomically-IsAtomic c os target payload disk out (inr (e, after, is, same)) =
    inr (e, rw is refl, λ p n. rw is (same p n))

in_directory-IsAtomic :
    (a : Answer) (c : Created) (target payload : String) (disk : Disk)
    (out : Result (Unit {0}) × Disk)
    → IsAtomic c target payload disk out
    → IsAtomic c target payload disk (in_directory a disk out)
unfolding in_directory no_directory
in_directory-IsAtomic (refused f) c target payload disk out h = inr (_, refl, λ p n. refl)
in_directory-IsAtomic succeeded c target payload disk out h = h

-- What a path holds after a write to the target: the payload is there and all else is as before, or the
-- write has failed and all is as before.
abbrev pub AtomicAt : String → String → Disk → String → Result (Unit {0}) × Disk → Type 0
AtomicAt target payload disk p out =
    ((out.0 ≡ ok tt) × (lookup p out.1 ≡ with_payload target payload disk p))
    ⊎ ((e : AppError) × (out.0 ≡ fail e) × (lookup p out.1 ≡ lookup p disk))

IsAtomic-at :
    (c : Created) (target payload p : String) (disk : Disk) (out : Result (Unit {0}) × Disk)
    → is_path c p ≡ false
    → IsAtomic c target payload disk out
    → AtomicAt target payload disk p out
IsAtomic-at c target payload p disk out n (inl (e, all)) = inl (e, all p n)
IsAtomic-at c target payload p disk out n (inr (e, is, all)) = inr (e, is, all p n)

-- Writing in place is atomic, whatever the operating system answers: for every path but the temporary
-- one, either the write succeeds, the payload is at the target and all else is as before, or it fails
-- and all is as before.
pub write_atomically-AtomicAt :
    (os : Answers) (target payload p : String) (disk : Disk)
    → is_path os.create_temp p ≡ false
    → AtomicAt target payload disk p (write_atomically os target payload disk)
unfolding write_atomically write_temp_file
write_atomically-AtomicAt os target payload p disk n =
    IsAtomic-at os.create_temp target payload p disk _ n (
      in_directory-IsAtomic os.mkdir os.create_temp target payload disk _ (
        commit_atomically-IsAtomic os.create_temp os target payload disk _
          (temp_file-Filled os.create_temp os payload disk)))

-- Writing a new document is atomic in the same way.
pub write_new-AtomicAt :
    (os : Answers) (target payload p : String) (disk : Disk)
    → is_path os.create_temp p ≡ false
    → AtomicAt target payload disk p (write_new os target payload disk)
unfolding write_new
write_new-AtomicAt os target payload p disk n =
    IsAtomic-at os.create_temp target payload p disk _ n (
      in_directory-IsAtomic os.mkdir os.create_temp target payload disk _ (
        commit_atomically-IsAtomic os.create_temp os target payload disk _
          (new_file-Filled os.create_temp os payload disk)))

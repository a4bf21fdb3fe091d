-- ===== src/Nss/Aliases/Table.antt =====
-- The members of an alias in the caller's buffer, as `_srvd_nss_aliases_populate` of
-- lib/srvd/nss/aliases.c puts them there: a table of pointers, and the strings behind it.
use native.Mathlib.Nat.{suc-mul}
use srvd.Base.{
  ℕ, suc, ◌+◌, ◌*◌, ◌%◌, ◌^◌, ◌≤◌, ◌<◌, ◌≡◌, ◌≢◌, refl, sym, ap, ◌∙◌, Option, none, some, List, [],
  ◌∷◌, ◌++◌, append_assoc, append-nil, map, arith, leb, if◌then◌else◌, length, length-append,
  length-replicate, replicate, All, Bool-cases, inl, inr,
}
use srvd.Memory.{Bytes, Mem, ok, string_in, length-string_in}
use srvd.Field.View.{entry_of}
use srvd.Nss.{Errno, erange, Area}
use srvd.Nss.Written.{area_of, put_entry-erange, put_entry-fits}
use srvd.Nss.Aliases.Slots.{replicate-add, length-slot, behind_slots, write-slot}
use srvd.Nss.Aliases.{link_member, next_member, put_members}

module _ (pointer_size : ℕ) (pointer : ℕ → Bytes) (bufsize : ℕ) where
  -- The slots of the table and the strings for members, the first of which is to stand at `at`; the
  -- slots of those that find no room are zero.
  abbrev pub lay_table : ℕ → List Bytes → Option Errno × (Bytes × Bytes)
  lay_table at [] = (none, ([], []))
  lay_table at (v ∷ vs) =
      let (errno, (slots, strings)) = lay_table (at + length v) vs in
      if leb (at + length v) bufsize
      then (errno, (pointer at ++ slots, string_in v ++ strings))
      else (some erange, (replicate (suc (length vs) * pointer_size) 0, []))

module _ (pointer_size : ℕ) (pointer : ℕ → Bytes)
    (sized : (p : ℕ) → length (pointer p) ≡ pointer_size) (bufsize : ℕ) (original : Bytes)
    (whole : bufsize ≤ length original) where
  -- Behind `w` in the buffer: the slots, those that were filled first, and the strings.
  abbrev pub laid_table :
      Bytes → Bytes → Bytes → Option Errno × (Bytes × Bytes) → Option Errno × Area
  laid_table w t s (errno, (slots, strings)) =
      (errno, area_of original (w ++ ((t ++ slots) ++ (s ++ strings))))

  slots_split :
      (n : ℕ)
      → replicate {A = ℕ} (suc n * pointer_size) 0
        ≡ replicate pointer_size 0 ++ replicate (n * pointer_size) 0
  slots_split n =
      ap (λ k. replicate {A = ℕ} k 0) (omega (arith, suc-mul n pointer_size))
      ∙ replicate-add pointer_size (n * pointer_size) 0

  -- The slot of a member that stands behind all the others.
  link_member-slot :
      (w t z s str : Bytes) (i : ℕ) (m : Mem)
      → length t ≡ i * pointer_size
      → link_member pointer_size pointer bufsize
          (length w)
          i
          (
            none,
            (
              length (w ++ (t ++ ((replicate pointer_size 0 ++ z) ++ s))),
              area_of original ((w ++ (t ++ ((replicate pointer_size 0 ++ z) ++ s))) ++ str),
            ),
          )
          m
        ≡ ok
            (
              none,
              area_of original (
                  w
                  ++ ((t ++ pointer (length (w ++ (t ++ ((replicate pointer_size 0 ++ z) ++ s)))))
                      ++ (z ++ (s ++ str)))),
            )
            m
  unfolding link_member
  link_member-slot w t z s str i m slots =
      let free = replicate pointer_size 0 in
      let at = length (w ++ (t ++ ((free ++ z) ++ s))) in
      let size : length (pointer at) ≡ length free =
        omega (arith, sized at, length-replicate {A = ℕ} pointer_size 0) in
      let n : length (w ++ (t ++ (free ++ (z ++ (s ++ str)))))
          ≡ length (w ++ ((t ++ pointer at) ++ (z ++ (s ++ str)))) =
        sym (length-slot w t free (pointer at) (z ++ (s ++ str)) size) in
      rw
        (
          behind_slots w t free z s str,
          write-slot w t free (pointer at) (z ++ (s ++ str)) original (length w + i * pointer_size)
              m (omega (arith, slots)) size,
          n,
        )
        refl

  -- The loop over the members: each takes its slot and its place behind the others, up to the first
  -- that finds no room.
  pub put_members-laid :
      (w t s : Bytes) (i : ℕ) (vs : List Bytes) (m : Mem)
      → All (λ v. v ≢ []) vs
      → i + length vs < 2 ^ 16
      → length t ≡ i * pointer_size
      → put_members pointer_size pointer bufsize
          (length w)
          i
          (map entry_of vs)
          (area_of original (w ++ (t ++ (replicate (length vs * pointer_size) 0 ++ s))))
          m
        ≡ ok
            (laid_table w t s (
              lay_table pointer_size pointer bufsize
                (length (w ++ (t ++ (replicate (length vs * pointer_size) 0 ++ s))))
                vs))
            m
  unfolding put_members next_member link_member
  put_members-laid w t s i [] m filled few slots =
      let none_left : 0 * pointer_size ≡ 0 = omega arith in
      rw (none_left, append-nil t, append-nil s) refl
  put_members-laid w t s i ([] ∷ vs) m (ne, filled) few slots = absurd (ne refl)
  put_members-laid w t s i ((b ∷ bs) ∷ vs) m (ne, filled) few slots =
      let z = replicate {A = ℕ} (length vs * pointer_size) 0 in
      let all = w ++ (t ++ ((replicate pointer_size 0 ++ z) ++ s)) in
      rw (slots_split (length vs)) (elim (Bool-cases (leb (length all + suc (length bs)) bufsize)) [
        | inl e ↦
            let str = string_in (b ∷ bs) in
            let ptr = pointer (length all) in
            let free = replicate {A = ℕ} pointer_size 0 in
            let size : length ptr ≡ length free =
              omega (arith, sized (length all), length-replicate {A = ℕ} pointer_size 0) in
            let next : length (t ++ ptr) ≡ suc i * pointer_size =
              omega
                (arith, slots, sized (length all), length-append t ptr, suc-mul i pointer_size) in
            let r = lay_table pointer_size pointer bufsize (length all + suc (length bs)) vs in
            let j : (i + 1) % 2 ^ 16 ≡ suc i = omega (arith, few) in
            let further : length (w ++ ((t ++ ptr) ++ (z ++ (s ++ str))))
                ≡ length all + suc (length bs) =
              length-slot w t free ptr (z ++ (s ++ str)) size
              ∙ ap length (sym (behind_slots w t free z s str))
              ∙ length-append all str
              ∙ ap (λ k. length all + k) (length-string_in (b ∷ bs)) in
            rw
              (
                e,
                put_entry-fits original all bufsize b bs m e whole,
                link_member-slot w t z s str i m slots,
                j,
                put_members-laid w (t ++ ptr) (s ++ str) (suc i) vs m filled (omega (arith, few))
                    next,
                further,
                append_assoc t ptr r.1.0,
                append_assoc s str r.1.1,
              )
              refl
        | inr e ↦
            rw
              (
                e,
                put_entry-erange original all bufsize b bs m e,
                append-nil s,
                append_assoc t (replicate pointer_size 0 ++ z) s,
              )
              refl
      ])

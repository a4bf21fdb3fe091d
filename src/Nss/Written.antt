-- ===== src/Nss/Written.antt =====
-- The caller's buffer as what has been put into it and what was there before: the strings that
-- lib/srvd/nss/passwd.c and lib/srvd/nss/aliases.c copy with include/srvd/buffer.h.
use srvd.Base.{
  ℕ, suc, ◌+◌, ◌≤◌, true, false, ◌≡◌, refl, none, some, ◌∷◌, ◌++◌, arith, leb, leb→le, length, drop,
  length-append, length-drop, drop-drop,
}
use srvd.Memory.{
  Bytes, Mem, ok, write, write-append, strncpy-padded, terminate-padded, string_in,
  length-string_in,
}
use srvd.Field.View.{entry_of}
use srvd.Nss.{erange, Area, put_entry}

-- The buffer in which `written` has taken the place of as many bytes.
abbrev pub area_of : Bytes → Bytes → Area
area_of original written = record {
  buffer = written ++ drop (length written) original;
  bi = length written;
}

-- More bytes behind what was written.
pub write-area_of :
    (original written s : Bytes) (m : Mem)
    → length written + length s ≤ length original
    → write (length written) s (written ++ drop (length written) original) m
      ≡ ok ((area_of original (written ++ s)).buffer) m
write-area_of original written s m fits =
    let room : length s ≤ length (drop (length written) original) =
      omega (arith, fits, length-drop (length written) original) in
    rw
      (
        write-append (length written) s written (drop (length written) original) refl room,
        length-append written s,
        drop-drop (length s) (length written) original,
      )
      refl

module _ (original written : Bytes) (bufsize b : ℕ) (bs : Bytes) (m : Mem) where
  pub put_entry-erange :
      leb (length written + suc (length bs)) bufsize ≡ false
      → put_entry bufsize (entry_of (b ∷ bs)) (area_of original written) m
        ≡ ok (some erange, (length written, area_of original written)) m
  unfolding put_entry
  put_entry-erange short = rw short refl

  -- A string that fits is put behind the others, up to its first zero and with a terminator.
  pub put_entry-fits :
      leb (length written + suc (length bs)) bufsize ≡ true
      → bufsize ≤ length original
      → put_entry bufsize (entry_of (b ∷ bs)) (area_of original written) m
        ≡ ok (none, (length written, area_of original (written ++ string_in (b ∷ bs)))) m
  unfolding put_entry
  put_entry-fits short whole =
      let n : length (string_in (b ∷ bs)) ≡ suc (length bs) = length-string_in (b ∷ bs) in
      let room : length written + length (string_in (b ∷ bs)) ≤ length original =
        omega (arith, n, whole, leb→le (length written + suc (length bs)) bufsize short) in
      let at : length written + suc (length bs) ≡ length (written ++ string_in (b ∷ bs)) =
        omega (arith, n, length-append written (string_in (b ∷ bs))) in
      rw
        (
          short,
          strncpy-padded (b ∷ bs) m,
          terminate-padded b bs m,
          write-area_of original written (string_in (b ∷ bs)) m room,
          at,
        )
        refl

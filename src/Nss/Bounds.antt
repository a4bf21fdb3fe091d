-- ===== src/Nss/Bounds.antt =====
-- The bounds of the caller's buffer, in include/srvd/buffer.h and its uses in lib/srvd/nss.
use srvd.Base.{
  ℕ, suc, ◌+◌, ◌-◌, ◌≤◌, ◌≡◌, sym, ap, ◌∙◌, ◌∷◌, ◌++◌, arith, leb, leb→le, le→leb, length, take,
  drop, drop-drop, drop-append, length-append, length-drop, length-take, append_assoc, Bool-cases,
  inl, inr,
}
use srvd.Memory.{
  Bytes, Mem, Ends, ends, bind, mono, write, strncpy-padded, terminate-padded, string_in,
  length-string_in,
}
use srvd.Field.View.{entry_of}
use srvd.Nss.{Area, put_entry}
use srvd.Nss.Written.{area_of}

-- What stays of the buffer, and where the iterator is.
abbrev pub Bounded : ℕ → Bytes → Area → Type 0
Bounded bufsize original a =
    (length a.buffer ≡ length original)
    × ((drop bufsize a.buffer ≡ drop bufsize original) × (a.bi ≤ bufsize))

-- What `written` bytes at the front leave of the buffer.
pub area_of-kept :
    (original written : Bytes) (bufsize : ℕ)
    → length written ≤ bufsize
    → bufsize ≤ length original
    → (length ((area_of original written).buffer) ≡ length original)
      × (drop bufsize ((area_of original written).buffer) ≡ drop bufsize original)
area_of-kept original written bufsize fits whole =
    let k : bufsize ≡ length written + (bufsize - length written) = omega (arith, fits) in
    (
      omega (
        arith,
        fits,
        whole,
        length-append written (drop (length written) original),
        length-drop (length written) original,
      ),
      ap (λ n. drop n (written ++ drop (length written) original)) k
          ∙ drop-drop (bufsize - length written) (length written)
              (written ++ drop (length written) original)
          ∙ ap (drop (bufsize - length written))
              (drop-append written (drop (length written) original))
          ∙ sym (drop-drop (bufsize - length written) (length written) original)
          ∙ ap (λ n. drop n original) (sym k),
    )

write-Kept :
    (p : ℕ) (s buffer : Bytes) (bufsize : ℕ) (m : Mem)
    → p + length s ≤ bufsize
    → bufsize ≤ length buffer
    → Ends
        (λ b. (length b ≡ length buffer) × (drop bufsize b ≡ drop bufsize buffer))
        (write p s buffer m)
unfolding write
write-Kept p s buffer bufsize m fits whole =
    let front = take p buffer ++ s in
    let n : p + length s ≡ length front =
      omega (arith, fits, whole, length-append (take p buffer) s, length-take p buffer) in
    let short : length front ≤ bufsize = omega (arith, n, fits) in
    let same : take p buffer ++ (s ++ drop (p + length s) buffer) ≡ (area_of buffer front).buffer =
      ap (λ k. take p buffer ++ (s ++ drop k buffer)) n
      ∙ sym (append_assoc (take p buffer) s (drop (length front) buffer)) in
    rw (le→leb (p + length s) (length buffer) (omega (arith, fits, whole)), same)
      (ends {a = (area_of buffer front).buffer} (area_of-kept buffer front bufsize short whole))

-- A write within the bounds.
pub write-Bounded :
    (p : ℕ) (s original : Bytes) (a : Area) (bufsize : ℕ) (m : Mem)
    → p + length s ≤ bufsize
    → bufsize ≤ length original
    → Bounded bufsize original a
    → Ends
        (λ b. (length b ≡ length original) × (drop bufsize b ≡ drop bufsize original))
        (write p s a.buffer m)
write-Bounded p s original a bufsize m fits whole (n, (t, i)) =
    mono (write-Kept p s a.buffer bufsize m fits (omega (arith, n, whole)))
      λ b (h, k). (omega (arith, h, n), k ∙ t)

-- A string that is copied, or does not fit.
pub put_entry-Ends :
    (bufsize : ℕ) (original : Bytes) (b : ℕ) (bs : Bytes) (a : Area) (m : Mem)
    → bufsize ≤ length original
    → Bounded bufsize original a
    → Ends (λ r. Bounded bufsize original r.1.1) (put_entry bufsize (entry_of (b ∷ bs)) a m)
unfolding put_entry
put_entry-Ends bufsize original b bs a m whole bounded =
    elim (Bool-cases (leb (a.bi + suc (length bs)) bufsize)) [
      | inr e ↦ rw e (ends bounded)
      | inl e ↦
          let n : length (string_in (b ∷ bs)) ≡ suc (length bs) = length-string_in (b ∷ bs) in
          let room : a.bi + suc (length bs) ≤ bufsize = leb→le (a.bi + suc (length bs)) bufsize e in
          rw (e, strncpy-padded (b ∷ bs) m, terminate-padded b bs m)
            (bind
              (write-Bounded a.bi (string_in (b ∷ bs)) original a bufsize m (omega (arith, n, room))
                whole bounded)
              λ buffer m2 h. ends (h.0, (h.1, room)))
    ]

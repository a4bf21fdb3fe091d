-- ===== src/Conf/Reader/Faults.antt =====
-- Files on which `_srvd_conf_file_read` of lib/srvd/libsrvd/conf.c has undefined behaviour.
use srvd.Base.{
  ℕ, suc, ◌+◌, ◌*◌, true, false, ◌≡◌, ◌≢◌, refl, ◌∙◌, none, some, List, [], ◌∷◌, ◌++◌, arith,
  length, All,
}
use srvd.Memory.{Bytes, Mem, ok, fault, taken, malloc, strncpy, Plenty}
use srvd.Conf.{Conf, new_item, copy_string, copy_value, item_add}
use srvd.Conf.Items.{Setting, holds}
use srvd.Conf.Adding.{copy_string-granted}
use srvd.Conf.Scan.{byte, eof, is_space, is_name, is_line, eol_read}
use srvd.Conf.Scan.Text.{
  Each, eof-append, read_while-append, read_while-end, read_while-last, is_name-not,
}
use srvd.Conf.Reader.{
  close, Reader, store_item, line_end, close_state, value_state, assign_state, name_state,
  global_state, switch_state, skip_comment, step, read_loop, reader, conf_file_read,
}
use srvd.Conf.Reader.Store.{HasName, span-append, span-null, name-IsText, item_has-unterminated}
use srvd.Conf.Reader.Documents.{Line, IsLine, lines_text, parsed}
use srvd.Conf.Reader.Files.{
  document_memory, conf_file_read-lines, document_memory-Plenty, parsed-HasName,
}

step-comment_end :
    (t : Bytes) (c : Conf) (m : Mem)
    → Each is_line t
    → step (reader (35 ∷ (t ++ 0 ∷ [])) c) m ≡ fault
unfolding step skip_comment switch_state global_state name_state assign_state byte
step-comment_end t c m h = rw (read_while-end is_line 35 t 0 m h, read_while-last is_name 0 m) refl

-- An empty value is stored through `NULL`.
store_item-null :
    (name : Bytes) (x : ℕ) (rest bp : Bytes) (ss : List Setting) (m : Mem)
    → Each is_name name
    → is_name x ≡ false
    → x ≢ 0
    → All HasName ss
    → Plenty m
    → store_item
        (record {
          bp = bp;
          state = close;
          status = true;
          name_start = some (name ++ x ∷ rest);
          name_end = some (x ∷ rest);
          value_start = none;
          value_end = none;
          conf = holds ss;
        })
        m
      ≡ fault
unfolding store_item item_add new_item malloc copy_string copy_value strncpy
store_item-null name x rest bp ss m named stop ne others plenty =
    rw
      (
        span-append name x rest m,
        span-null m,
        item_has-unterminated name x rest m named stop ne ss others,
        plenty m.calls,
        copy_string-granted (name ++ x ∷ rest) name (taken m) (name-IsText name named)
            (x, rest, refl) (plenty (m.calls + 1)),
        plenty (m.calls + 1 + 1),
      )
      refl

-- The variables at the line's end behind an equals sign with no value.
abbrev no_value : Bytes → Bytes → Bytes → Conf → Reader
no_value name rest bp c = record (reader bp c) {
  state = close;
  name_start = some (name ++ 61 ∷ rest);
  name_end = some (61 ∷ rest);
}

module _ (c : ℕ) (cs after : Bytes) (y : ℕ) (rest : Bytes) (ss : List Setting) (m : Mem)
    (named : Each is_name (c ∷ cs)) (spaces : Each is_space after) (others : All HasName ss)
    (plenty : Plenty m) where
  abbrev line_end_reader : Reader
  line_end_reader = no_value (c ∷ cs) (after ++ 10 ∷ y ∷ rest) (10 ∷ y ∷ rest) (holds ss)

  step-no_value :
      step (reader (c ∷ (cs ++ 61 ∷ (after ++ 10 ∷ y ∷ rest))) (holds ss)) m ≡ ok line_end_reader m
  unfolding step skip_comment switch_state global_state name_state assign_state value_state byte
  step-no_value =
      let (a, (b, z)) = is_name-not c named.0 in
      rw
        (
          b,
          a,
          read_while-append is_name c cs 61 (after ++ 10 ∷ y ∷ rest) m named.1 refl,
          read_while-append is_space 61 after 10 (y ∷ rest) m spaces refl,
        )
        refl

  step-close_null : step line_end_reader m ≡ fault
  unfolding step skip_comment switch_state close_state line_end byte eol_read
  step-close_null =
      rw
        (store_item-null (c ∷ cs) 61 (after ++ 10 ∷ y ∷ rest) (y ∷ rest) ss m named refl
          (λ t. omega (arith, t)) others plenty)
        refl

  read_loop-no_value :
      (n : ℕ)
      → read_loop (suc (suc n)) (reader (c ∷ (cs ++ 61 ∷ (after ++ 10 ∷ y ∷ rest))) (holds ss)) m
        ≡ fault
  unfolding read_loop
  read_loop-no_value n =
      rw (eof-append c cs 61 (after ++ 10 ∷ y ∷ rest), step-no_value, step-close_null) refl

-- A round that faults.
read_loop-fault :
    (n : ℕ) (r : Reader) (m : Mem)
    → eof r.bp ≡ false
    → step r m ≡ fault
    → read_loop (suc n) r m ≡ fault
unfolding read_loop
read_loop-fault n r m more bad = rw (more, bad) refl

module _ (ls : List Line) (ss : List Setting) (m : Mem) (lines : All IsLine ls)
    (others : All HasName ss) (plenty : Plenty m) where
  -- After any lines, a comment that no newline ends is followed out of the buffer: the parser reads
  -- a name at the last byte and then looks at the byte behind the buffer. With memory at hand.
  pub conf_file_read-comment_end :
      (t : Bytes)
      → Each is_line t
      → conf_file_read (lines_text ls (35 ∷ (t ++ 0 ∷ []))) (holds ss) m ≡ fault
  conf_file_read-comment_end t h =
      let (k, read) = conf_file_read-lines ls 35 (t ++ 0 ∷ []) ss m lines others plenty in
      let n : k + 2 * length (35 ∷ (t ++ 0 ∷ [])) ≡ suc (k + 2 * length (t ++ 0 ∷ []) + 1) =
        omega arith in
      let bad =
        read_loop-fault (k + 2 * length (t ++ 0 ∷ []) + 1)
          (reader (35 ∷ (t ++ 0 ∷ [])) (holds (parsed ls ss))) (document_memory ls m)
          (eof-append 35 t 0 [])
          (step-comment_end t (holds (parsed ls ss)) (document_memory ls m) h) in
      read ∙ rw (n, bad) refl

  -- With memory at hand, after any lines a name and an equals sign with no value behind it, but a
  -- newline and more text, has the parser copy a value from `NULL`.
  pub conf_file_read-no_value :
      (c : ℕ) (cs after : Bytes) (y : ℕ) (rest : Bytes)
      → Each is_name (c ∷ cs)
      → Each is_space after
      → conf_file_read (lines_text ls (c ∷ (cs ++ 61 ∷ (after ++ 10 ∷ y ∷ rest)))) (holds ss) m
        ≡ fault
  conf_file_read-no_value c cs after y rest named spaces =
      let tail = cs ++ 61 ∷ (after ++ 10 ∷ y ∷ rest) in
      let (k, read) = conf_file_read-lines ls c tail ss m lines others plenty in
      let n : k + 2 * length (c ∷ tail) ≡ suc (suc (k + 2 * length tail)) = omega arith in
      read
      ∙ rw
          (
            n,
            read_loop-no_value c cs after y rest (parsed ls ss) (document_memory ls m) named spaces
                (parsed-HasName ls ss lines others) (document_memory-Plenty ls m plenty)
                (k + 2 * length tail),
          )
          refl

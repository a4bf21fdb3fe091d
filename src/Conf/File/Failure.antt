-- ===== src/Conf/File/Failure.antt =====
-- What `srvd_conf_file_parse` of lib/srvd/libsrvd/conf.c leaves on each of its branches.
use srvd.Base.{
  ◌+◌, Bool, true, false, not, ◌≡◌, ◌≢◌, ◌⊎◌, refl, ap, ◌∙◌, Option, none, some, ◌==◌, length, take,
  replicate, inl, inr,
}
use srvd.Memory.{
  Bytes, Mem, free, write, malloc, Yields, result, faulted, chain, weaken, if-Yields, any-Yields,
}
use srvd.Conf.{Conf, conf_initialize, conf_clear}
use srvd.Conf.Reader.Failure.{conf_file_read-Yields}
use srvd.Conf.File.{
  ConfFile, Stat, file_uptodate, parsed_file, read_buffer, parse_opened, parse_at, file_parse,
}
use srvd.Conf.File.Parse.{file_uptodate-updated}

-- The file in memory after the parser: up to date with the time of `stat`, or as it was before, or
-- as it was but with no settings.
abbrev pub Parsed : ConfFile → Option Stat → Bool × ConfFile → Type 0
Parsed f info (true, f') =
    (f'.updated ≡ true)
    × ((f'.path ≡ f.path) × ((s : Stat) × ((info ≡ some s) × (f'.updated_time ≡ s.mtime))))
Parsed f info (false, f') = (f' ≡ f) ⊎ (f' ≡ record f { conf = conf_initialize.1 })

parsed_file-Parsed :
    (f : ConfFile) (info : Stat) (r : Bool × Conf)
    → (r.0 ≡ true) ⊎ (r ≡ (false, conf_initialize.1))
    → Parsed f (some info) (parsed_file f info.mtime r)
unfolding parsed_file
parsed_file-Parsed f info (true, c) h = (refl, (refl, (info, (refl, refl))))
parsed_file-Parsed f info (false, c) (inl never) = absurd cc
parsed_file-Parsed f info (false, c) (inr e) = inr (ap (λ r. record f { conf = r.1 }) e)

read_buffer-Yields :
    (f : ConfFile) (content : Bytes) (info : Stat) (m : Mem)
    → Yields (Parsed f (some info)) (read_buffer f content info m)
unfolding read_buffer free
read_buffer-Yields f content info m =
    chain (any-Yields (write 0 (take info.size content) (replicate (info.size + 1) 0) m))
      λ buffer m2 t.
        if-Yields (not (length (take info.size content) == info.size)) _ _ m2 (result (inl refl)) (
          chain (any-Yields (conf_clear f.conf m2)) λ cleared m3 u.
            chain (conf_file_read-Yields buffer cleared.1 m3)
              λ r m4 h. result (parsed_file-Parsed f info r h))

parse_opened-Yields :
    (f : ConfFile) (opened : Option Bytes) (info : Option Stat) (m : Mem)
    → Yields (Parsed f info) (parse_opened f opened info m)
unfolding parse_opened
parse_opened-Yields f none info m = result (inl refl)
parse_opened-Yields f (some content) none m = result (inl refl)
parse_opened-Yields f (some content) (some info) m =
    if-Yields (info.size == 0) _ _ m (result (inl refl)) (
      chain (any-Yields (malloc m)) λ got m2 t.
        if-Yields (not got) _ _ m2 (result (inl refl)) (read_buffer-Yields f content info m2))

parse_at-Yields :
    (path : Option Bytes) (f : ConfFile) (opened : Option Bytes) (info : Option Stat) (m : Mem)
    → Yields (Parsed f info) (parse_at path f opened info m)
unfolding parse_at
parse_at-Yields none f opened info m = faulted
parse_at-Yields (some path) f opened info m = parse_opened-Yields f opened info m

-- On every branch, whatever the file holds and whatever `stat`, `fopen`, `fread` and `malloc` answer:
-- if `srvd_conf_file_parse` ends without a fault, it returns `SRVD_TRUE` with the file up to date at
-- the time that `stat` told, or it returns `SRVD_FALSE` and the settings are those of before or none;
-- the mark and the time of the last read stay as they were then, also with no settings left.
pub file_parse-Yields :
    (f : ConfFile) (opened : Option Bytes) (info : Option Stat) (m : Mem)
    → Yields (Parsed f info) (file_parse f opened info m)
unfolding file_parse
file_parse-Yields f opened info m = parse_at-Yields f.path f opened info m

-- When a file that was read before does not parse any more, `stat` telling the time of that read
-- makes it count as up to date, although its settings may be gone.
pub file_uptodate-file_parse :
    (f : ConfFile) (opened : Option Bytes) (info : Option Stat) (s : Stat) (m : Mem)
    → f.updated ≡ true
    → s.mtime ≡ f.updated_time
    → f.updated_time ≢ 0
    → Yields (λ r. r.0 ≡ false → file_uptodate r.1 (some s) ≡ true) (file_parse f opened info m)
file_uptodate-file_parse f opened info s m loaded same ne =
    weaken (file_parse-Yields f opened info m) stays
  where
    stays :
        (r : Bool × ConfFile) → Parsed f info r → r.0 ≡ false → file_uptodate r.1 (some s) ≡ true
    stays (true, f') h e = absurd cc
    stays (false, f') (inl h) e =
        ap (λ f. file_uptodate f (some s)) h ∙ file_uptodate-updated f s loaded same ne
    stays (false, f') (inr h) e =
        ap (λ f. file_uptodate f (some s)) h
        ∙ file_uptodate-updated (record f { conf = conf_initialize.1 }) s loaded same ne

-- ===== src/Conf/Reader/Failure.antt =====
-- What a read of `_srvd_conf_file_read` in lib/srvd/libsrvd/conf.c that fails leaves.
use srvd.Base.{◌*◌, true, false, ◌&&◌, ◌≡◌, ◌⊎◌, refl, ap, inl, inr, length}
use srvd.Memory.{Bytes, Mem, Yields, result, chain, if-Yields, any-Yields}
use srvd.Conf.{Conf, conf_initialize, clear_nodes, conf_clear}
use srvd.Conf.Reader.{is_global, read_loop, reader, finish, conf_file_read}

-- Whatever the buffer and the configuration held, and whatever `malloc` answers: a read that ends
-- without a fault returns `SRVD_TRUE`, or returns `SRVD_FALSE` with an empty configuration.
pub conf_file_read-Yields :
    (buffer : Bytes) (c : Conf) (m : Mem)
    → Yields (λ r. (r.0 ≡ true) ⊎ (r ≡ (false, conf_initialize.1))) (conf_file_read buffer c m)
unfolding conf_file_read finish conf_clear
conf_file_read-Yields buffer c m =
    chain (any-Yields (read_loop (2 * length buffer) (reader buffer c) m)) λ r m2 t.
      if-Yields (r.status && is_global r.state) _ _ m2 (result (inl refl)) (
        chain {P = λ e. e ≡ conf_initialize}
          (chain (any-Yields (clear_nodes r.conf.nodes m2)) λ u m3 s. result refl)
          λ e m3 s. result (inr (ap (λ e. (false, e.1)) s)))

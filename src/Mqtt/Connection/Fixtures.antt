-- ===== src/Mqtt/Connection/Fixtures.antt =====
-- A network that answers, for the tests.
use zybo_z.Common.{ℕ, zero, suc, ◌<◌, ◌≡◌, refl, arith, true, false}
use zybo_z.Common.Int.{pos, is_zero}
use zybo_z.Mqtt.Connection.Calls.{
  ctx_new, bio_new_mem_buf, pem_read_cert, gethostbyname, socket, ssl_new, ssl_connect, Net,
}
use zybo_z.Mqtt.Connection.Certificates.{IsNet}
use zybo_z.Mqtt.Connection.Handshake.{IsReachable}

-- The world is the number of certificates that the BIO still has.
abbrev pub online : Net ℕ
online bio_new_mem_buf n = (2, pos 1)
online pem_read_cert zero = (0, pos 0)
online pem_read_cert (suc n) = (n, pos 1)
online ctx_new n = (n, pos 1)
online gethostbyname n = (n, pos 1)
online socket n = (n, pos 3)
online (ssl_new true) n = (n, pos 1)
online ssl_connect n = (n, pos 1)
online _ n = (n, pos 0)

pub online-IsNet : IsNet online (λ n. n) 2
online-IsNet = record {
  remaining-new = λ w. omega arith;
  remaining-read = read;
  remaining-add = λ w. omega arith;
  remaining-free = λ w. omega arith;
  ssl_new-null = λ w. refl;
}
  where
    read : (w : ℕ) → is_zero (online pem_read_cert w).1 ≡ false → (online pem_read_cert w).0 < w
    read zero h = absurd (ground arith)
    read (suc n) h = omega arith

pub online-IsReachable : IsReachable online
online-IsReachable = record { host_found = λ w. refl; connects = λ fd w. refl }

-- ===== src/PageSource/Counter.antt =====
-- A page source that hands out addresses in rising order and takes nothing back. The tests use it.
use ely_square.Base.{ℕ, ◌+◌, ◌*◌, ◌%◌, ◌≡◌, refl, arith, some, ok}
use ely_square.PageSource.{PageSource}

abbrev pub counter : PageSource
counter = record {
  Store = ℕ;
  request = λ s n. ok (some s, s + n * 4096);
  release = λ s address n. ok s;
  IsReady = λ s. s % 4096 ≡ 0;
  limit = 2097152;
  request_grants = λ s n ready pos fits. (s, s + n * 4096, refl, ready, omega arith);
}

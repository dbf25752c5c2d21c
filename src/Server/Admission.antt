-- ===== src/Server/Admission.antt =====
-- What happens to a place that is given back.
use android_kernel_programmi.Base.{ℕ, ◌≡◌, Bool, true, false, List, ◌∷◌, ◌++◌, ◌==◌, length, arith}
use android_kernel_programmi.Server.Cipher.{encrypt}
use android_kernel_programmi.Server.Thread.{
  bytes, reply, c_string, is_quit, try_enter, serve, finish,
}
use android_kernel_programmi.Server.Pool.{Pool, PoolOk, serving-append}

-- When one of the clients being served has ended, the next message of a waiting client that is not
-- ":q" is answered with its encryption, not with the request to wait.
pub serve-finish :
    (p : Pool) (before after : List Bool) (seen : ℕ) (text : List ℕ)
    → PoolOk p
    → p.blocked ≡ before ++ (false ∷ after)
    → is_quit text ≡ false
    → (serve (finish p.counters seen false) true (bytes text)).2
      ≡ reply (c_string (encrypt text)) (length text == 256)
unfolding serve finish try_enter
serve-finish p before after seen text ok e h =
    ground (arith, ok, e, h, serving-append before (false ∷ after))

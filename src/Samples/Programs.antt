-- ===== src/Samples/Programs.antt =====
-- The theorems on ptree.c and server.c at small inputs.
use android_kernel_programmi.Base.{ℕ}
use android_kernel_programmi.Base.{false, List, ◌≤◌}
use android_kernel_programmi.Ptree.Defs.{max_num_proc, ptree}
use android_kernel_programmi.Server.Thread.{bytes, reply, c_string, is_quit, serve, finish}
use android_kernel_programmi.Server.Admission.{serve-finish}
use android_kernel_programmi.Samples.Inputs.{full_house, full_house-PoolOk, family, fresh, blank}
use android_kernel_programmi.Base.{true, ◌==◌, refl, ◌≡◌, ◌<◌, [], ◌∷◌, length, ltb, arith, map}
use android_kernel_programmi.Ptree.Preorder.{
  processes, Returns, is_none, preorder, Reads, ptree_preorder, ptree_parent_pid, ptree_overrun,
}
use android_kernel_programmi.Server.Cipher.{encrypt}
use android_kernel_programmi.Server.Shift.{decrypt_byte, serve-decrypt}

four_processes : processes family ≡ 4
unfolding preorder
four_processes = refl

family_fits : processes family ≤ max_num_proc
family_fits = omega (arith, four_processes)

ptree_preorder_example :
    Returns family fresh blank λ n out. (n ≡ processes family) × Reads out 0 (preorder family 0)
ptree_preorder_example = ptree_preorder family fresh blank family_fits

ptree_parent_pid_example :
    Returns family fresh blank
      λ n out. (j : ℕ) → j < processes family → (out j).parent_pid ≡ (fresh.buf_tmp j).parent_pid
ptree_parent_pid_example = ptree_parent_pid family fresh blank family_fits

ptree_overrun_example : is_none (ptree family fresh blank) ≡ ltb max_num_proc (processes family)
ptree_overrun_example = ptree_overrun family fresh blank

no_quit : is_quit (104 ∷ 105 ∷ []) ≡ false
unfolding is_quit c_string
no_quit = refl

serve-finish_example :
    (serve (finish full_house.counters 3 false) true (bytes (104 ∷ 105 ∷ []))).2
    ≡ reply (c_string (encrypt (104 ∷ 105 ∷ []))) (length {A = ℕ} (104 ∷ 105 ∷ []) == 256)
serve-finish_example =
    serve-finish full_house [] (true ∷ false ∷ []) 3 (104 ∷ 105 ∷ []) full_house-PoolOk refl no_quit

serve-decrypt_example :
    (answer : List ℕ) × (serve full_house.counters false (bytes (104 ∷ 105 ∷ []))
      ≡ (full_house.counters, false, reply answer false))
    × (map decrypt_byte answer ≡ c_string (104 ∷ 105 ∷ []))
serve-decrypt_example = serve-decrypt full_house.counters (104 ∷ 105 ∷ []) (omega arith) no_quit

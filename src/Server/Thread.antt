-- ===== src/Server/Thread.antt =====
-- A server thread: the body of `server` in server.c, with the counters that the threads share.
use android_kernel_programmi.Base.{
  ℕ, Bool, false, List, [], ◌∷◌, ◌&&◌, ◌==◌, ltb, if◌then◌else◌, length, add32, sub32,
}
use android_kernel_programmi.Server.Cipher.{encrypt}

-- NUM_THREADS_AVAL
abbrev pub num_threads_aval : ℕ
num_threads_aval = 2

-- The globals. The mutex protects `num_working_thread`, and `num_thread` only in the threads.
pub record Counters : Type 0 where
  pub num_thread : ℕ
  pub num_working_thread : ℕ

-- The bytes of a C string: up to the first zero.
unfoldable pub c_string : List ℕ → List ℕ
c_string [] = []
c_string (c ∷ cs) = if c == 0 then [] else c ∷ c_string cs

-- `strcmp(buffer, ":q")` is 0
unfoldable pub is_quit : List ℕ → Bool
unfolding c_string
is_quit buffer = elim (c_string buffer) [ a ∷ b ∷ [] ↦ a == b':' && b == b'q' | _ ↦ false ]

-- What recv gives: an error, or at most 256 bytes. `buffer[n] = '\0'` needs n < 256.
pub data Received : Type 0 where
  error : Received
  bytes : List ℕ → Received

-- What a pass through the loop does: it leaves the loop, or sends a reply and goes on. `spill` says
-- that the terminating zero was written behind the 256 bytes of `buffer`.
pub data Outcome : Type 0 where
  leave : Outcome
  reply : (text : List ℕ) → (spill : Bool) → Outcome

-- "Please wait ..." with its terminating zero: 16 bytes.
abbrev pub please_wait : List ℕ
please_wait =
    80 ∷ 108 ∷ 101 ∷ 97 ∷ 115 ∷ 101 ∷ 32 ∷ 119 ∷ 97 ∷ 105 ∷ 116 ∷ 32 ∷ 46 ∷ 46 ∷ 46 ∷ 0 ∷ []

-- The critical section: a blocked thread takes a free place.
unfoldable pub try_enter : Counters → Bool → Counters × Bool
try_enter c block =
    if block && ltb c.num_working_thread num_threads_aval
    then (record c { num_working_thread = add32 c.num_working_thread 1 }, false)
    else (c, block)

-- One pass of `while(1)`: the counters, the thread's `block`, and the outcome. Whether send fails is
-- left to the caller.
unfoldable pub serve : Counters → Bool → Received → Counters × Bool × Outcome
unfolding is_quit try_enter c_string encrypt
serve c block error = (c, block, leave)
serve c block (bytes buffer) =
    let (c', block') = try_enter c block in
    let spill = length buffer == 256 in
    if is_quit buffer
    then (c, block, leave)
    else (c', block', reply (if block' then please_wait else c_string (encrypt buffer)) spill)

-- The end of the thread: it gives its place back. main changes `num_thread` without the mutex, so
-- what `--` reads may be any value, `seen`.
unfoldable pub finish : Counters → ℕ → Bool → Counters
finish c seen block = record {
  num_thread = sub32 seen 1;
  num_working_thread = if block then c.num_working_thread else sub32 c.num_working_thread 1;
}

-- main, on an accepted connection; what `++` reads may be any value too.
unfoldable pub accept : Counters → ℕ → Counters
accept c seen = record c { num_thread = add32 seen 1 }

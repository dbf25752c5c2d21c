-- ===== src/Server/Cipher.antt =====
-- The shift by three that server.c applies to a message.
use android_kernel_programmi.Base.{ℕ, ◌+◌, ◌-◌, ◌%◌, List, [], ◌∷◌, ◌&&◌, leb, if◌then◌else◌}

-- The two `if`s of the loop body, one after the other.
unfoldable pub encrypt_byte : ℕ → ℕ
encrypt_byte c =
    let c1 : ℕ = if leb b'a' c && leb c b'z' then (c - b'a' + 3) % 26 + b'a' else c in
    if leb b'A' c1 && leb c1 b'Z' then (c1 - b'A' + 3) % 26 + b'A' else c1

-- The `for` loop over the received bytes.
unfoldable pub encrypt : List ℕ → List ℕ
unfolding encrypt_byte
encrypt [] = []
encrypt (c ∷ cs) = encrypt_byte c ∷ encrypt cs

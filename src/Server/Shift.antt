-- ===== src/Server/Shift.antt =====
-- The shift of server.c and the shift back.
use android_kernel_programmi.Base.{
  ℕ, ◌+◌, ◌-◌, ◌%◌, ◌≡◌, refl, List, [], ◌∷◌, ◌&&◌, leb, if◌then◌else◌, arith, map,
}
use android_kernel_programmi.Base.{◌<◌, ◌∙◌, ap, Bool-cases, inl, inr, ◌==◌, ==_iff, false, length}
use android_kernel_programmi.Server.Thread.{
  Counters, c_string, is_quit, try_enter, serve, bytes, reply,
}
use android_kernel_programmi.Server.Cipher.{encrypt_byte, encrypt}

-- The shift back by three letters.
abbrev pub decrypt_byte : ℕ → ℕ
decrypt_byte c =
    if leb b'a' c && leb c b'z'
    then (c - b'a' + 23) % 26 + b'a'
    else if leb b'A' c && leb c b'Z'
    then (c - b'A' + 23) % 26 + b'A'
    else c

decrypt_byte-encrypt_byte : (c : ℕ) → decrypt_byte (encrypt_byte c) ≡ c
unfolding encrypt_byte
decrypt_byte-encrypt_byte c = ground arith

decrypt-encrypt : (text : List ℕ) → map decrypt_byte (encrypt text) ≡ text
unfolding encrypt
decrypt-encrypt [] = refl
decrypt-encrypt (c ∷ cs) = ground (arith, decrypt_byte-encrypt_byte c, decrypt-encrypt cs)

-- Only the zero byte becomes zero, so a message is cut at the same place before and after.
c_string-encrypt : (text : List ℕ) → c_string (encrypt text) ≡ encrypt (c_string text)
unfolding encrypt c_string encrypt_byte
c_string-encrypt [] = refl
c_string-encrypt (c ∷ cs) = elim (Bool-cases (c == 0)) [
  | inl e ↦ rw (c_string, (==_iff c 0).0 e) refl
  | inr e ↦
      let n : (encrypt_byte c == 0) ≡ false = ground (arith, e) in
      rw (c_string, e, n) (ap (λ xs. encrypt_byte c ∷ xs) (c_string-encrypt cs))
]

-- A thread that has a place answers every message of fewer than 256 bytes that is not ":q" with a
-- text that, with its letters shifted back by three, is the message up to its first zero byte; it
-- keeps its place, changes no counter and writes nothing behind its buffer.
pub serve-decrypt :
    (c : Counters) (text : List ℕ)
    → length text < 256
    → is_quit text ≡ false
    → (answer : List ℕ) × (serve c false (bytes text) ≡ (c, false, reply answer false))
      × (map decrypt_byte answer ≡ c_string text)
unfolding serve try_enter
serve-decrypt c text short h =
    let inside : (length text == 256) ≡ false = ground arith in
    (
      c_string (encrypt text),
      rw (serve, h, inside) refl,
      ap (map decrypt_byte) (c_string-encrypt text) ∙ decrypt-encrypt (c_string text),
    )

-- ===== src/Udp/Texts.antt =====
-- udp_server.c: the texts that it prints.
use linux_summary.Base.{
  ℕ, zero, suc, ◌≤◌, ◌<◌, ◌≡◌, refl, ap, sym, ◌∙◌, true, false, Option, none, some, List, [], ◌∷◌,
  ◌++◌, map, length, take, drop, length-append, length-drop, length-take, drop_end, append-nil,
  append_assoc, All, arith,
}
use linux_summary.Base.Strto.{has_nul, c_string, c_string-nul, has_nul-nul}
use linux_summary.Udp.{buf_len, waiting, failed, reads_beyond, received, serve, server}

-- A packet with a text and its end.
pub record Packet : Type 0 where
  pub text : List ℕ
  pub rest : List ℕ

abbrev pub bytes_of : Packet → List ℕ
bytes_of p = p.text ++ 0 ∷ p.rest

-- The text and its end are among the first `BUF_LEN` bytes.
abbrev pub HasText : Packet → Type 0
HasText p = (has_nul p.text ≡ false) × (length p.text < buf_len)

take-within :
    (n : ℕ) (xs : List ℕ) (y : ℕ) (ys : List ℕ)
    → length xs < n
    → (zs : List ℕ) × (take n (xs ++ y ∷ ys) ≡ xs ++ y ∷ zs)
take-within zero xs y ys h = absurd (omega arith)
take-within (suc n) [] y ys h = (take n ys, refl)
take-within (suc n) (x ∷ xs) y ys h =
    let (zs, same) = take-within n xs y ys (omega arith) in (zs, ap (λ l. x ∷ l) same)

-- The buffer keeps its size.
length-received :
    (bytes buf : List ℕ) → length buf ≡ buf_len → length (received bytes buf) ≡ buf_len
length-received bytes buf size =
    let landed = take buf_len bytes in
    omega (
      arith,
      size,
      length-append landed (drop (length landed) buf),
      length-drop (length landed) buf,
      length-take buf_len bytes,
    )

serve-texts :
    (ps : List Packet) (last : List (Option (List ℕ))) (buf : List ℕ) (printed : List (List ℕ))
    → length buf ≡ buf_len
    → All HasText ps
    → (buf' : List ℕ) × (length buf' ≡ buf_len)
      × (serve (map (λ p. some (bytes_of p)) ps ++ last) buf printed
          ≡ serve last buf' (printed ++ map (λ p. p.text) ps))
unfolding serve
serve-texts [] last buf printed size h = (buf, size, ap (serve last buf) (sym (append-nil printed)))
serve-texts (p ∷ ps) last buf printed size h =
    let (zs, same) = take-within buf_len p.text 0 p.rest h.0.1 in
    let buf1 = received (bytes_of p) buf in
    let tail = zs ++ drop (length (take buf_len (bytes_of p))) buf in
    let whole : buf1 ≡ p.text ++ 0 ∷ tail =
      ap (λ l. l ++ drop (length (take buf_len (bytes_of p))) buf) same
      ∙ append_assoc p.text (0 ∷ zs) (drop (length (take buf_len (bytes_of p))) buf) in
    let nul : has_nul buf1 ≡ true = ap has_nul whole ∙ has_nul-nul p.text tail in
    let text : c_string buf1 ≡ p.text = ap c_string whole ∙ c_string-nul p.text tail h.0.0 in
    let (buf', size', rest) =
      serve-texts ps last buf1 (printed ++ p.text ∷ []) (length-received (bytes_of p) buf size)
        h.1 in
    (
      buf',
      size',
      rw (serve, nul, text)
          (rest ∙ ap (serve last buf') (append_assoc printed (p.text ∷ []) (map (λ p. p.text) ps))),
    )

serve-beyond :
    (bytes buf : List ℕ) (rest : List (Option (List ℕ))) (printed : List (List ℕ))
    → length buf ≡ buf_len
    → buf_len ≤ length bytes
    → has_nul (take buf_len bytes) ≡ false
    → serve (some bytes ∷ rest) buf printed ≡ reads_beyond printed
unfolding serve
serve-beyond bytes buf rest printed size long h =
    let landed = take buf_len bytes in
    let none_left : drop (length landed) buf ≡ [] =
      drop_end (length landed) buf (omega (arith, size, length-take buf_len bytes)) in
    let whole : received bytes buf ≡ landed = ap (λ l. landed ++ l) none_left ∙ append-nil landed in
    let nul : has_nul (received bytes buf) ≡ false = ap has_nul whole ∙ h in rw (serve, nul) refl

-- Whatever the 16 bytes of the buffer hold at first: for packets that each have a text and its
-- end within their first 16 bytes, the server prints these texts, each as its packet has it and
-- none of what the packets before it left, and then waits; or it exits where `recvfrom` fails
-- behind them. At a packet of at least 16 bytes, the first 16 of them without an end, it reads
-- behind the buffer.
pub server-texts :
    (ps : List Packet) (buf : List ℕ)
    → length buf ≡ buf_len
    → All HasText ps
    → (server true true (map (λ p. some (bytes_of p)) ps) buf ≡ waiting (map (λ p. p.text) ps))
      × ((rest : List (Option (List ℕ)))
          → server true true (map (λ p. some (bytes_of p)) ps ++ none ∷ rest) buf
            ≡ failed (map (λ p. p.text) ps))
      × ((bytes : List ℕ) (rest : List (Option (List ℕ)))
          → buf_len ≤ length bytes
          → has_nul (take buf_len bytes) ≡ false
          → server true true (map (λ p. some (bytes_of p)) ps ++ some bytes ∷ rest) buf
            ≡ reads_beyond (map (λ p. p.text) ps))
unfolding server serve
server-texts ps buf size h =
    let packets = map (λ p. some (bytes_of p)) ps in
    (
      ap (λ l. serve l buf []) (sym (append-nil packets)) ∙ (serve-texts ps [] buf [] size h).2,
      λ rest. (serve-texts ps (none ∷ rest) buf [] size h).2,
      λ bytes rest long no_nul.
          let (buf', size', printed) = serve-texts ps (some bytes ∷ rest) buf [] size h in
          printed ∙ serve-beyond bytes buf' rest (map (λ p. p.text) ps) size' long no_nul,
    )

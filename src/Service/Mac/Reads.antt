-- ===== src/Service/Mac/Reads.antt =====
-- The MAC address that src/service.rs makes of a name, read back as six bytes by a reader of its own.
use croutond.Base.{
  ℕ, zero, suc, ◌+◌, ◌-◌, ◌*◌, ◌/◌, ◌%◌, ◌<◌, String, ◌≡◌, refl, sym, ◌∙◌, ap, ◌&&◌, Option, none,
  some, List, [], ◌∷◌, leb, ◌==◌, if◌then◌else◌, arith,
}
use Prim.Native.Char.{Char, code}
use Prim.Native.String.append.{nil, cons}
use croutond.Base.Text.{◌+++◌, nth_letter}
use croutond.Service.Mac.{hex, mac_for_name}

abbrev hex_value : Char → Option ℕ
hex_value c =
    if leb b'0' (code c) && leb (code c) b'9'
    then some (code c - b'0')
    else if leb b'a' (code c) && leb (code c) b'f'
    then some (code c - b'a' + 10)
    else none

abbrev byte_of : Option ℕ → Option ℕ → Option (List ℕ) → Option (List ℕ)
byte_of (some high) (some low) (some bytes) = some ((high * 16 + low) ∷ bytes)
byte_of (some high) (some low) none = none
byte_of (some high) none bytes = none
byte_of none low bytes = none

-- Bytes of two hexadecimal digits each, with a colon between them.
abbrev pub parse_mac : String → Option (List ℕ)
parse_mac String.[] = none
parse_mac (String.◌∷◌ c String.[]) = none
parse_mac (String.◌∷◌ c (String.◌∷◌ d String.[])) = byte_of (hex_value c) (hex_value d) (some [])
parse_mac (String.◌∷◌ c (String.◌∷◌ d (String.◌∷◌ e s))) =
    let rest = parse_mac s in
    if code e == b':' then byte_of (hex_value c) (hex_value d) rest else none

hex_value-nth_letter : (d : ℕ) → d < 16 → hex_value (nth_letter d "0123456789abcdef") ≡ some d
hex_value-nth_letter zero h = refl
hex_value-nth_letter (suc zero) h = refl
hex_value-nth_letter (suc (suc zero)) h = refl
hex_value-nth_letter (suc (suc (suc zero))) h = refl
hex_value-nth_letter (suc (suc (suc (suc zero)))) h = refl
hex_value-nth_letter (suc (suc (suc (suc (suc zero))))) h = refl
hex_value-nth_letter (suc (suc (suc (suc (suc (suc zero)))))) h = refl
hex_value-nth_letter (suc (suc (suc (suc (suc (suc (suc zero))))))) h = refl
hex_value-nth_letter (suc (suc (suc (suc (suc (suc (suc (suc zero)))))))) h = refl
hex_value-nth_letter (suc (suc (suc (suc (suc (suc (suc (suc (suc zero))))))))) h = refl
hex_value-nth_letter (suc (suc (suc (suc (suc (suc (suc (suc (suc (suc zero)))))))))) h = refl
hex_value-nth_letter (suc (suc (suc (suc (suc (suc (suc (suc (suc (suc (suc zero))))))))))) h = refl
hex_value-nth_letter (suc (suc (suc (suc (suc (suc (suc (suc (suc (suc (suc (suc zero))))))))))))
      h =
    refl
hex_value-nth_letter
      (suc (suc (suc (suc (suc (suc (suc (suc (suc (suc (suc (suc (suc zero))))))))))))) h =
    refl
hex_value-nth_letter
      (suc (suc (suc (suc (suc (suc (suc (suc (suc (suc (suc (suc (suc (suc zero)))))))))))))) h =
    refl
hex_value-nth_letter
      (suc (suc (suc (suc (suc (suc (suc (suc (suc (suc (suc (suc (suc (suc (suc zero)))))))))))))))
      h =
    refl
hex_value-nth_letter
      (suc
        (suc (suc (suc (suc (suc (suc (suc (suc (suc (suc (suc (suc (suc (suc (suc d))))))))))))))))
      h =
    absurd (omega arith)

colon : (s : String) → ":" +++ s ≡ String.◌∷◌ ":" s
colon s = cons ":" String.[] s ∙ ap (String.◌∷◌ ":") (nil s)

spell :
    (c d : Char) (s : String)
    → String.◌∷◌ c (String.◌∷◌ d String.[]) +++ ":" +++ s
      ≡ String.◌∷◌ c (String.◌∷◌ d (String.◌∷◌ ":" s))
spell c d s = simp (cons, nil, colon s)

lead : (s : String) → "02:" +++ s ≡ hex 2 +++ ":" +++ s
lead s =
    cons "0" "2:" s
    ∙ ap (String.◌∷◌ "0") (cons "2" ":" s ∙ ap (String.◌∷◌ "2") (colon s))
    ∙ sym (spell "0" "2" s)

-- The halves of a byte.
read_halves :
    (byte : ℕ) (bytes : List ℕ)
    → byte < 256
    → byte_of
        (hex_value (nth_letter (byte / 16) "0123456789abcdef"))
        (hex_value (nth_letter (byte % 16) "0123456789abcdef"))
        (some bytes)
      ≡ some (byte ∷ bytes)
read_halves byte bytes h =
    rw
      (
        hex_value-nth_letter (byte / 16) (omega arith),
        hex_value-nth_letter (byte % 16) (omega arith),
      )
      (ap (λ b. some (b ∷ bytes)) (halves byte))
  where
    halves : (n : ℕ) → n / 16 * 16 + n % 16 ≡ n
    halves n = omega arith

parse_mac-hex :
    (byte : ℕ) (s : String) (bytes : List ℕ)
    → byte < 256
    → parse_mac s ≡ some bytes
    → parse_mac (hex byte +++ ":" +++ s) ≡ some (byte ∷ bytes)
parse_mac-hex byte s bytes h e = ap parse_mac (spell _ _ s) ∙ rw e (read_halves byte bytes h)

parse_mac-hex_last : (byte : ℕ) → byte < 256 → parse_mac (hex byte) ≡ some (byte ∷ [])
parse_mac-hex_last byte h = read_halves byte [] h

-- Read back by a reader of addresses of its own, the MAC address of a name is the byte 2, which marks
-- it as locally administered, and the first five bytes of the digest, if each of them is a byte.
pub parse_mac-mac_for_name :
    (digest : String → ℕ → ℕ) (name : String)
    → ((i : ℕ) → digest name i < 256)
    → parse_mac (mac_for_name digest name)
      ≡ some
          (2 ∷ digest name 0 ∷ digest name 1 ∷ digest name 2 ∷ digest name 3 ∷ digest name 4 ∷ [])
unfolding mac_for_name
parse_mac-mac_for_name digest name h =
    let byte = λ (i : ℕ). hex (digest name i) in
    let from_3 = byte 3 +++ ":" +++ byte 4 in
    let from_2 = byte 2 +++ ":" +++ from_3 in
    let from_1 = byte 1 +++ ":" +++ from_2 in
    ap parse_mac (lead (byte 0 +++ ":" +++ from_1))
    ∙ parse_mac-hex 2 (byte 0 +++ ":" +++ from_1) _ (omega arith) (
        parse_mac-hex _ from_1 _ (h 0) (
          parse_mac-hex _ from_2 _ (h 1) (
            parse_mac-hex _ from_3 _ (h 2)
              (parse_mac-hex _ (byte 4) _ (h 3) (parse_mac-hex_last _ (h 4))))))

-- Two names with one address have digests that agree in their first byte, and so on to the fifth.
pub mac_for_name_injective :
    (digest : String → ℕ → ℕ) (a b : String)
    → ((name : String) (i : ℕ) → digest name i < 256)
    → mac_for_name digest a ≡ mac_for_name digest b
    → (i : ℕ) → i < 5
    → digest a i ≡ digest b i
mac_for_name_injective digest a b h e zero lt =
    cc (parse_mac-mac_for_name digest a (h a), parse_mac-mac_for_name digest b (h b))
mac_for_name_injective digest a b h e (suc zero) lt =
    cc (parse_mac-mac_for_name digest a (h a), parse_mac-mac_for_name digest b (h b))
mac_for_name_injective digest a b h e (suc (suc zero)) lt =
    cc (parse_mac-mac_for_name digest a (h a), parse_mac-mac_for_name digest b (h b))
mac_for_name_injective digest a b h e (suc (suc (suc zero))) lt =
    cc (parse_mac-mac_for_name digest a (h a), parse_mac-mac_for_name digest b (h b))
mac_for_name_injective digest a b h e (suc (suc (suc (suc zero)))) lt =
    cc (parse_mac-mac_for_name digest a (h a), parse_mac-mac_for_name digest b (h b))
mac_for_name_injective digest a b h e (suc (suc (suc (suc (suc i))))) lt = absurd (omega arith)

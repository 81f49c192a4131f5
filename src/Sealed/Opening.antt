-- ===== src/Sealed/Opening.antt =====
-- What was sealed opens again.
use go_tangra_asset.Common.{
  ℕ, ◌+◌, String, ◌≡◌, ◌≢◌, refl, ap, subst, false, some, ◌⊎◌, List, [], ◌∷◌, ◌++◌, arith, ltb,
  ◌==◌, Option-cases, Bool-cases, inl, inr,
}
use go_tangra_asset.Memstore.Page.{length, take}
use go_tangra_asset.Sealed.{
  Bytes, Crypto, Draws, SealError, Sealing, sealing, refused, drop, layout, seal, open_blob,
  seal_string, open_string,
}

-- What the packages document: GCM's sizes, that opening with the same key, nonce and data undoes sealing,
-- and that the encodings undo one another; a blob is not encoded as the empty text.
pub record IsLawful (c : Crypto) : Type 0 where
  pub nonce_size : c.nonce_size ≡ 12
  pub overhead : c.overhead ≡ 16
  pub seal-length :
      (key nonce text ad : Bytes) → length (c.gcm_seal key nonce text ad) ≡ length text + 16
  pub open-seal :
      (key nonce text ad : Bytes)
      → length nonce ≡ 12
      → c.gcm_open key nonce (c.gcm_seal key nonce text ad) ad ≡ some text
  pub unbase64-base64 : (b : Bytes) → c.unbase64 (c.base64 b) ≡ some b
  pub base64_blank : (b : Bytes) → length b ≢ 0 → c.base64 b ≢ ""
  pub text_of-bytes_of : (s : String) → c.text_of (c.bytes_of s) ≡ s

-- The reads that succeed give as many bytes as were asked for.
pub record IsRead (d : Draws) : Type 0 where
  pub data_key : (k : Bytes) → d.data_key ≡ some k → length k ≡ 32
  pub key_nonce : (n : Bytes) → d.key_nonce ≡ some n → length n ≡ 12
  pub text_nonce : (n : Bytes) → d.text_nonce ≡ some n → length n ≡ 12

module _ {A : Type 0} where
  pub take-append : (xs ys : List A) → take (length xs) (xs ++ ys) ≡ xs
  take-append [] ys = refl
  take-append (x ∷ xs) ys = ap (λ t. x ∷ t) (take-append xs ys)

  pub drop-append : (xs ys : List A) → drop (length xs) (xs ++ ys) ≡ ys
  drop-append [] ys = refl
  drop-append (x ∷ xs) ys = drop-append xs ys

  pub length-append : (xs ys : List A) → length (xs ++ ys) ≡ length xs + length ys
  length-append [] ys = ground arith
  length-append (x ∷ xs) ys = ground (arith, length-append xs ys)

  append_assoc : (xs ys zs : List A) → (xs ++ ys) ++ zs ≡ xs ++ (ys ++ zs)
  append_assoc [] ys zs = refl
  append_assoc (x ∷ xs) ys zs = ap (λ t. x ∷ t) (append_assoc xs ys zs)

  take_exact : (n : ℕ) (xs ys : List A) → length xs ≡ n → take n (xs ++ ys) ≡ xs
  take_exact n xs ys e = subst (λ k. take k (xs ++ ys) ≡ xs) e (take-append xs ys)

  drop_exact : (n : ℕ) (xs ys : List A) → length xs ≡ n → drop n (xs ++ ys) ≡ ys
  drop_exact n xs ys e = subst (λ k. drop k (xs ++ ys) ≡ ys) e (drop-append xs ys)

  drop_both :
      (n : ℕ) (xs ys zs : List A) → length xs + length ys ≡ n → drop n (xs ++ (ys ++ zs)) ≡ zs
  drop_both n xs ys zs e =
      subst (λ t. drop n t ≡ zs) (append_assoc xs ys zs)
        (drop_exact n (xs ++ ys) zs (ground (arith, length-append xs ys)))

Sealing-cases :
    {A : Type 0} (r : Sealing A) → ((a : A) × (r ≡ sealing a)) ⊎ ((x : SealError) × (r ≡ refused x))
Sealing-cases (sealing a) = inl (a, refl)
Sealing-cases (refused x) = inr (x, refl)

module _ (c : Crypto) (lawful : IsLawful c) (kek : Bytes) where
  -- The blob that `Seal` lays out opens to the text.
  open_blob-layout :
      (data_key n1 n2 text ad : Bytes)
      → length data_key ≡ 32
      → length n1 ≡ 12
      → length n2 ≡ 12
      → open_blob c kek (layout c kek data_key n1 n2 text ad) ad ≡ sealing text
  unfolding open_blob
  open_blob-layout data_key n1 n2 text ad ek e1 e2 =
      let w = c.gcm_seal kek n1 data_key ad in
      let ct = c.gcm_seal data_key n2 text ad in
      let lw : length w ≡ 48 = ground (arith, lawful.seal-length kek n1 data_key ad) in
      let lct = lawful.seal-length data_key n2 text ad in
      let l1 = length-append n1 (w ++ (n2 ++ ct)) in
      let l2 = length-append w (n2 ++ ct) in
      let l3 = length-append n2 ct in
      let long : ltb (length (n1 ++ (w ++ (n2 ++ ct)))) (12 + (32 + 16) + 12 + 16) ≡ false =
        ground arith in
      let t1 = take_exact 12 n1 (w ++ (n2 ++ ct)) e1 in
      let d1 = drop_exact 12 n1 (w ++ (n2 ++ ct)) e1 in
      let t2 = take_exact 48 w (n2 ++ ct) lw in
      let d2 = drop_both 60 n1 w (n2 ++ ct) (ground arith) in
      let t3 = take_exact 12 n2 ct e2 in
      let d3 = drop_exact 12 n2 ct e2 in
      rw
        (
          lawful.nonce_size,
          lawful.overhead,
          long,
          t1,
          d1,
          t2,
          d2,
          t3,
          d3,
          lawful.open-seal kek n1 data_key ad e1,
          lawful.open-seal data_key n2 text ad e2,
        )
        refl

  -- A blob that `Seal` gives opens, under the same associated data, to what was sealed; and is not empty.
  seal-open_blob :
      (d : Draws) (text ad blob : Bytes)
      → IsRead d
      → seal c kek d text ad ≡ sealing blob
      → (open_blob c kek blob ad ≡ sealing text) × (length blob ≢ 0)
  unfolding seal
  seal-open_blob d text ad blob read e = elim (Option-cases d.data_key) [
    | inl none_k ↦ ground arith
    | inr (k, ek) ↦ elim (Option-cases d.key_nonce) [
      | inl none_1 ↦ ground arith
      | inr (n1, e1) ↦ elim (Option-cases d.text_nonce) [
        | inl none_2 ↦ ground arith
        | inr (n2, e2) ↦
            let laid : layout c kek k n1 n2 text ad ≡ blob = ground arith in
            let opened =
              open_blob-layout k n1 n2 text ad (read.data_key k ek) (read.key_nonce n1 e1)
                (read.text_nonce n2 e2) in
            let nonce = read.key_nonce n1 e1 in
            let rest = c.gcm_seal kek n1 k ad ++ (n2 ++ c.gcm_seal k n2 text ad) in
            let long : length (layout c kek k n1 n2 text ad) ≢ 0 =
              ground (arith, length-append n1 rest, nonce) in
            (
              subst (λ b. open_blob c kek b ad ≡ sealing text) laid opened,
              subst (λ b. length b ≢ 0) laid long,
            )
      ]
    ]
  ]

  -- With a lawful cipher and encoding, and random bytes as many as were asked for, a text that was sealed
  -- opens under the same associated data to itself.
  pub open_string-seal_string :
      (d : Draws) (s enc : String) (ad : Bytes)
      → IsRead d
      → seal_string c kek d s ad ≡ sealing enc
      → open_string c kek enc ad ≡ sealing s
  unfolding seal_string open_string
  open_string-seal_string d s enc ad read e = elim (Bool-cases (s == "")) [
    | inl blank ↦ ground arith
    | inr given ↦ elim (Sealing-cases (seal c kek d (c.bytes_of s) ad)) [
      | inr (x, failed) ↦ ground arith
      | inl (blob, sealed) ↦
          let (opened, long) = seal-open_blob d (c.bytes_of s) ad blob read sealed in
          ground (
            arith,
            lawful.unbase64-base64 blob,
            lawful.base64_blank blob long,
            lawful.text_of-bytes_of s,
          )
    ]
  ]

-- ===== src/Gateway/Policy/Resources.antt =====
-- Resource paths: which spellings `normalise_resource` identifies.
use agentpay.Prelude.{
  ℕ, zero, suc, ◌≡◌, refl, ap, ◌∙◌, Bool, true, false, List, [], ◌∷◌, ◌++◌, Option, none, some,
  replicate,
}
use agentpay.Gateway.Policy.{
  is_whitespace, is_slash, is_question, trim_start, trim_end, keep_unless, before_first,
  normalise_resource,
}

-- No character of the text passes the test.
abbrev pub Without : (ℕ → Bool) → List ℕ → Type 0
Without p [] = Unit {0}
Without p (x ∷ xs) = (p x ≡ false) × Without p xs

Without-append :
    (p : ℕ → Bool) (xs ys : List ℕ) → Without p xs → Without p ys → Without p (xs ++ ys)
Without-append p [] ys a b = b
Without-append p (x ∷ xs) ys (h, a) b = (h, Without-append p xs ys a b)

Without-replicate : (p : ℕ → Bool) (n c : ℕ) → p c ≡ false → Without p (replicate n c)
Without-replicate p zero c h = tt
Without-replicate p (suc n) c h = (h, Without-replicate p n c h)

trim_start-stop :
    (p : ℕ → Bool) (x : ℕ) (xs : List ℕ) → p x ≡ false → trim_start p (x ∷ xs) ≡ x ∷ xs
trim_start-stop p x xs h = rw h refl

trim_start-replicate :
    (p : ℕ → Bool) (n c : ℕ) (xs ys : List ℕ)
    → p c ≡ true
    → trim_start p ((replicate n c ++ xs) ++ ys) ≡ trim_start p (xs ++ ys)
trim_start-replicate p zero c xs ys h = refl
trim_start-replicate p (suc n) c xs ys h = rw h (trim_start-replicate p n c xs ys h)

keep_unless-false : (x : ℕ) (xs : List ℕ) → keep_unless false x xs ≡ x ∷ xs
keep_unless-false x [] = refl
keep_unless-false x (y ∷ ys) = refl

keep_unless-append :
    (b : Bool) (x : ℕ) (xs : List ℕ) (y : ℕ) (ys : List ℕ)
    → keep_unless b x (xs ++ (y ∷ ys)) ≡ x ∷ (xs ++ (y ∷ ys))
keep_unless-append true x [] y ys = refl
keep_unless-append true x (z ∷ xs) y ys = refl
keep_unless-append false x [] y ys = refl
keep_unless-append false x (z ∷ xs) y ys = refl

trim_end-stop :
    (p : ℕ → Bool) (xs : List ℕ) (y : ℕ) (ys : List ℕ)
    → p y ≡ false
    → trim_end p (xs ++ (y ∷ ys)) ≡ xs ++ (y ∷ trim_end p ys)
trim_end-stop p [] y ys h = rw h (keep_unless-false y (trim_end p ys))
trim_end-stop p (x ∷ xs) y ys h =
    ap (keep_unless (p x) x) (trim_end-stop p xs y ys h)
    ∙ keep_unless-append (p x) x xs y (trim_end p ys)

trim_end-absent : (p : ℕ → Bool) (xs : List ℕ) → Without p xs → trim_end p xs ≡ xs
trim_end-absent p [] a = refl
trim_end-absent p (x ∷ xs) (e, a) =
    ap (keep_unless (p x) x) (trim_end-absent p xs a) ∙ rw e (keep_unless-false x xs)

trim_end-append :
    (p : ℕ → Bool) (xs ys : List ℕ) → trim_end p ys ≡ [] → trim_end p (xs ++ ys) ≡ trim_end p xs
trim_end-append p [] ys h = h
trim_end-append p (x ∷ xs) ys h = ap (keep_unless (p x) x) (trim_end-append p xs ys h)

append_nil : (xs : List ℕ) → xs ++ [] ≡ xs
append_nil [] = refl
append_nil (x ∷ xs) = ap (λ (t : List ℕ). x ∷ t) (append_nil xs)

trim_end-replicate : (p : ℕ → Bool) (n c : ℕ) → p c ≡ true → trim_end p (replicate n c) ≡ []
trim_end-replicate p zero c h = refl
trim_end-replicate p (suc n) c h = rw (trim_end-replicate p n c h, h) refl

before_first-found :
    (p : ℕ → Bool) (xs : List ℕ) (y : ℕ) (ys : List ℕ)
    → Without p xs
    → p y ≡ true
    → before_first p (xs ++ (y ∷ ys)) ≡ xs
before_first-found p [] y ys a h = rw h refl
before_first-found p (x ∷ xs) y ys (e, a) h =
    rw e (ap (λ (t : List ℕ). x ∷ t) (before_first-found p xs y ys a h))

before_first-absent : (p : ℕ → Bool) (xs : List ℕ) → Without p xs → before_first p xs ≡ xs
before_first-absent p [] a = refl
before_first-absent p (x ∷ xs) (e, a) =
    rw e (ap (λ (t : List ℕ). x ∷ t) (before_first-absent p xs a))

-- A query, if there is one, behind its question mark.
abbrev pub tail : Option (List ℕ) → List ℕ
tail none = []
tail (some query) = 63 ∷ query

-- A name between slashes.
abbrev pub slashed : ℕ → List ℕ → ℕ → List ℕ
slashed n name k = replicate n 47 ++ (name ++ replicate k 47)

-- A name without blanks and question marks that neither starts nor ends with a slash.
pub record IsName (x : ℕ) (xs : List ℕ) : Type 0 where
  pub no_blanks : Without is_whitespace (x ∷ xs)
  pub no_question : Without is_question (x ∷ xs)
  pub start : is_slash x ≡ false
  pub end : trim_end is_slash (x ∷ xs) ≡ x ∷ xs

slashed-Without :
    (p : ℕ → Bool) (n : ℕ) (name : List ℕ) (k : ℕ)
    → p 47 ≡ false
    → Without p name
    → Without p (slashed n name k)
slashed-Without p n name k h a =
    Without-append p (replicate n 47) (name ++ replicate k 47) (Without-replicate p n 47 h)
      (Without-append p name (replicate k 47) a (Without-replicate p k 47 h))

leading :
    (n : ℕ) (x : ℕ) (xs : List ℕ) (k : ℕ) (t : List ℕ)
    → is_whitespace x ≡ false
    → trim_start is_whitespace (slashed n (x ∷ xs) k ++ t) ≡ slashed n (x ∷ xs) k ++ t
leading zero x xs k t h = trim_start-stop is_whitespace x ((xs ++ replicate k 47) ++ t) h
leading (suc n) x xs k t h = refl

trailing :
    (l : List ℕ) (q : Option (List ℕ))
    → Without is_whitespace l
    → (r : Option (List ℕ)) × (trim_end is_whitespace (l ++ tail q) ≡ l ++ tail r)
trailing l none a =
    (none, trim_end-absent is_whitespace (l ++ []) (Without-append is_whitespace l [] a tt))
trailing l (some q) a = (some (trim_end is_whitespace q), trim_end-stop is_whitespace l 63 q refl)

unquestioned :
    (l : List ℕ) (q : Option (List ℕ))
    → Without is_question l
    → before_first is_question (l ++ tail q) ≡ l
unquestioned l none a =
    ap (before_first is_question) (append_nil l) ∙ before_first-absent is_question l a
unquestioned l (some q) a = before_first-found is_question l 63 q a refl

-- However a name is written, with any number of slashes before and after it and any query behind
-- it, it is normalised to the name behind one slash, so that an entry of the allowlist and a request
-- for the same name agree. The name has no blank and no question mark, and no slash at its ends.
pub normalise_resource-slashed :
    (n : ℕ) (x : ℕ) (xs : List ℕ) (k : ℕ) (q : Option (List ℕ))
    → IsName x xs
    → normalise_resource (slashed n (x ∷ xs) k ++ tail q) ≡ 47 ∷ x ∷ xs
unfolding normalise_resource
normalise_resource-slashed n x xs k q w =
    let (r, e) =
      trailing (slashed n (x ∷ xs) k) q
        (slashed-Without is_whitespace n (x ∷ xs) k refl w.no_blanks) in
    let plain =
      Without-append is_question (x ∷ xs) (replicate k 47) w.no_question
        (Without-replicate is_question k 47 refl) in
    let trimmed =
      ap (trim_start is_slash)
        (ap (trim_end is_whitespace) (leading n x xs k (tail q) w.no_blanks.0) ∙ e)
      ∙ trim_start-replicate is_slash n 47 ((x ∷ xs) ++ replicate k 47) (tail r) refl
      ∙ trim_start-stop is_slash x ((xs ++ replicate k 47) ++ tail r) w.start in
    ap (λ (t : List ℕ). 47 ∷ trim_end is_slash t)
      (ap (before_first is_question) trimmed ∙ unquestioned ((x ∷ xs) ++ replicate k 47) r plain)
    ∙ ap (λ (t : List ℕ). 47 ∷ t)
        (trim_end-append is_slash (x ∷ xs) (replicate k 47) (trim_end-replicate is_slash k 47 refl)
          ∙ w.end)

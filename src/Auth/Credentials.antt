-- ===== src/Auth/Credentials.antt =====
-- ctrl.go: who is let in.
use gonic.Base.{
  ℕ, ◌<◌, ◌≡◌, ◌≢◌, ◌↔◌, ◌⊎◌, refl, sym, ap, subst, inl, inr, Bool, true, false, ◌&&◌, List, [],
  ◌∷◌, ◌++◌, Option, none, some, Result, ok, err, All, arith, Str, codes, str_eq, str_eq_iff,
  str_eq_refl, str_eq-false, has_prefix, drop, if◌then◌else◌, Bool-cases,
}
use gonic.Db.{User}
use gonic.Auth.{
  encode_hex, decode_hex, check_creds_basic, check_creds_token, by_name, authenticate, found, creds,
}
use gonic.Auth.Hex.{decode_hex-encode_hex}

let_in_iff :
    (s t : Str) (user : User)
    → (◌≡◌ {A = Result ℕ User} (if str_eq s t then ok user else err 40) (ok user)) ↔ (s ≡ t)
let_in_iff s t user = elim (Bool-cases (str_eq s t)) [
  | inl e ↦ rw e (λ h. (str_eq_iff s t).0 e, λ h. refl)
  | inr e ↦ rw e (λ h. cc h, λ h. absurd (ground (arith, str_eq_iff s t)))
]

module _ (md5 : Str → Str) (users : List User) (user : User) (username : Str)
    (there : by_name username users ≡ some user) where
  -- A user who is there is let in with a token and without a password exactly if the token is the
  -- hexadecimal digest of the password and the salt, if a token or a salt is given at all.
  pub authenticate-token :
      (token salt : Str)
      → (token ≢ []) ⊎ (salt ≢ [])
      → (authenticate md5 users username [] token salt ≡ ok user)
        ↔ (token ≡ encode_hex (md5 (user.password ++ salt)))
  unfolding authenticate check_creds_token
  authenticate-token token salt g =
      let given : (str_eq token [] && str_eq salt []) ≡ false =
        ground (arith, str_eq_iff token [], str_eq_iff salt []) in
      rw (str_eq_refl [], given, there)
        (let_in_iff token (encode_hex (md5 (user.password ++ salt))) user)

  -- A user who is there is let in with a password and without a token and a salt exactly if the
  -- password is theirs, as it stands or, after `enc:`, in hexadecimal digits.
  pub authenticate-password :
      (password : Str)
      → password ≢ []
      → (authenticate md5 users username password [] [] ≡ ok user) ↔ (
          user.password
          ≡ (if has_prefix password (codes "enc:") then decode_hex (drop 4 password) else password))
  unfolding authenticate check_creds_basic
  authenticate-password password g =
      rw (str_eq-false password [] g, str_eq_refl [], there)
        (let_in_iff user.password
          (if has_prefix password (codes "enc:") then decode_hex (drop 4 password) else password)
          user)

  -- A user can always log in with the digits of their password, if it is a list of bytes.
  pub authenticate-encoded :
      All (λ c. c < 256) user.password
      → authenticate md5 users username (codes "enc:" ++ encode_hex user.password) [] [] ≡ ok user
  unfolding has_prefix
  authenticate-encoded bytes =
      (authenticate-password (codes "enc:" ++ encode_hex user.password) (λ e. cc e)).1
        (sym (decode_hex-encode_hex user.password bytes))

found-ok :
    (md5 : Str → Str) (b : Bool) (o : Option User) (u : User) (password token salt : Str)
    → found md5 b o password token salt ≡ ok u
    → (o ≡ some u) × (creds md5 b u password token salt ≡ true)
found-ok md5 b none u password token salt h = cc h
found-ok md5 b (some v) u password token salt h =
    elim (Bool-cases (creds md5 b v password token salt)) [
      | inl e ↦
          let k : ◌≡◌ {A = Result ℕ User} (ok v) (ok u) = rw e at h in
          let q : v ≡ u = cc k in
          (ap some q, subst (λ w. creds md5 b w password token salt ≡ true) q e)
      | inr e ↦ (let k : ◌≡◌ {A = Result ℕ User} (err 40) (ok u) = rw e at h in cc k)
    ]

check_creds_token-eq :
    (md5 : Str → Str) (password token salt : Str)
    → check_creds_token md5 password token salt ≡ true
    → token ≡ encode_hex (md5 (password ++ salt))
unfolding check_creds_token
check_creds_token-eq md5 password token salt h =
    (str_eq_iff token (encode_hex (md5 (password ++ salt)))).0 h

check_creds_basic-eq :
    (password given : Str)
    → check_creds_basic password given ≡ true
    → password ≡ (if has_prefix given (codes "enc:") then decode_hex (drop 4 given) else given)
unfolding check_creds_basic
check_creds_basic-eq password given h =
    (str_eq_iff password
        (if has_prefix given (codes "enc:") then decode_hex (drop 4 given) else given)).0
      h

-- What a request gives to be let in as a user: no password, and as a token the hexadecimal digest of
-- the user's password and the salt, a token or a salt being there at all; or no token and no salt,
-- and the user's password, as it stands or, after `enc:`, in hexadecimal digits.
abbrev pub Proves : (Str → Str) → User → Str → Str → Str → Type 0
Proves md5 user password token salt =
    ((password ≡ [])
      × ((token ≢ []) ⊎ (salt ≢ []))
      × (token ≡ encode_hex (md5 (user.password ++ salt))))
    ⊎ ((password ≢ [])
        × (token ≡ [])
        × (salt ≡ [])
        × (user.password ≡ (
            if has_prefix password (codes "enc:") then decode_hex (drop 4 password) else password)))

some_given :
    (token salt : Str) → (str_eq token [] && str_eq salt []) ≡ false → (token ≢ []) ⊎ (salt ≢ [])
some_given [] [] h = absurd (ground (arith, str_eq_refl []))
some_given [] (c ∷ salt) h = inr (λ e. cc e)
some_given (c ∷ token) salt h = inl (λ e. cc e)

let_in-Proves :
    (md5 : Str → Str) (users : List User) (username password token salt : Str) (u : User)
    → authenticate md5 users username password token salt ≡ ok u
    → (by_name username users ≡ some u) × Proves md5 u password token salt
unfolding authenticate
let_in-Proves md5 users username password token salt u h =
    elim (Bool-cases (str_eq token [] && str_eq salt [])) [
      | inl b ↦ elim (Bool-cases (str_eq password [])) [
        | inl e ↦ (let k : ◌≡◌ {A = Result ℕ User} (err 10) (ok u) = rw (e, b) at h in cc k)
        | inr e ↦
            let k : found md5 false (by_name username users) password token salt ≡ ok u =
              rw (e, b) at h in
            let (n, c) = found-ok md5 false (by_name username users) u password token salt k in
            let t : token ≡ [] = (str_eq_iff token []).0 (ground arith) in
            let s : salt ≡ [] = (str_eq_iff salt []).0 (ground arith) in
            let q : password ≢ [] = λ z. ground (arith, str_eq_iff password []) in
            (n, inr (q, t, s, check_creds_basic-eq u.password password c))
      ]
      | inr b ↦ elim (Bool-cases (str_eq password [])) [
        | inl e ↦
            let k : found md5 true (by_name username users) password token salt ≡ ok u =
              rw (e, b) at h in
            let (n, c) = found-ok md5 true (by_name username users) u password token salt k in
            (
              n,
              inl (
                (str_eq_iff password []).0 e,
                some_given token salt b,
                check_creds_token-eq md5 u.password token salt c,
              ),
            )
        | inr e ↦ (let k : ◌≡◌ {A = Result ℕ User} (err 10) (ok u) = rw (e, b) at h in cc k)
      ]
    ]

Proves-let_in :
    (md5 : Str → Str) (users : List User) (username password token salt : Str) (u : User)
    → by_name username users ≡ some u
    → Proves md5 u password token salt
    → authenticate md5 users username password token salt ≡ ok u
Proves-let_in md5 users username password token salt u n (inl (p, g, t)) =
    subst (λ w. authenticate md5 users username w token salt ≡ ok u) (sym p)
      ((authenticate-token md5 users u username n token salt g).1 t)
Proves-let_in md5 users username password token salt u n (inr (q, t, s, p)) =
    subst (λ w. authenticate md5 users username password w salt ≡ ok u) (sym t)
      (subst (λ w. authenticate md5 users username password [] w ≡ ok u) (sym s)
        ((authenticate-password md5 users u username n password q).1 p))

-- A request is let in as a user exactly if they are the user of the name that it gives, and it gives
-- either no password, a token or a salt, and as the token the hexadecimal digest of the user's
-- password and the salt; or no token, no salt, and the user's password, as it stands or, after
-- `enc:`, in hexadecimal digits.
pub authenticate-ok :
    (md5 : Str → Str) (users : List User) (username password token salt : Str) (u : User)
    → (authenticate md5 users username password token salt ≡ ok u)
      ↔ ((by_name username users ≡ some u) × Proves md5 u password token salt)
authenticate-ok md5 users username password token salt u = (
  let_in-Proves md5 users username password token salt u,
  λ (n, p). Proves-let_in md5 users username password token salt u n p,
)

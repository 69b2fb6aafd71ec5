-- ===== src/Store/Certificates.antt =====
-- The listings of services/trust-core/pg-certificate-store.ts, `PgCertificateStore`.
use bapc_vpn_and_digital_sec.Base.{
  ℕ, ◌+◌, ◌*◌, String, not, ◌&&◌, Option, none, some, List, [], ◌∷◌, ltb, number_eq, string_eq,
  filter, is_some, sort,
}
use bapc_vpn_and_digital_sec.Store.{Store, Certificate}

-- `expiringWithin`: the certificates in force that expire in less than `days` days, the soonest first
unfoldable pub expiring_within : ℕ → Store → List Certificate
expiring_within days s =
    sort (λ a b. ltb a.expires_at b.expires_at)
      (filter (λ c. not c.revoked && ltb c.expires_at (s.now + days * 86400000)) s.certificates)

abbrev time_of : Option ℕ → ℕ
time_of none = 0
time_of (some t) = t

-- `listRevoked`: the serials and times of the revoked ones, the earliest revocation first
abbrev serials : List Certificate → List (String × ℕ)
serials [] = []
serials (c ∷ cs) = (c.serial, time_of c.revoked_at) ∷ serials cs

unfoldable pub list_revoked : Store → List (String × ℕ)
list_revoked s = serials (
    sort (λ a b. ltb (time_of a.revoked_at) (time_of b.revoked_at))
      (filter (λ c. c.revoked && is_some c.revoked_at) s.certificates))

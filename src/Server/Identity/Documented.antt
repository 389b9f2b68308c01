-- ===== src/Server/Identity/Documented.antt =====
-- dtsu_server.py: the identity block as a master reads it, by the table of docs/register-map.md.
use nd45_dtsu666_converter.Datastore.{Datastore}
use nd45_dtsu666_converter.Registers.{fc3}
use nd45_dtsu666_converter.Server.Encode.{Write, write_all}
use nd45_dtsu666_converter.Server.Identity.Image.{write_all_append}
use nd45_dtsu666_converter.Server.Identity.{
  write_static_registers, identity_writes, fixed_writes, baud_code, DtsuConf, DtsuIdentityConf,
  baudrate_of, holding,
}
use mathlib.Core.Path.{subst}
use nd45_dtsu666_converter.Base.{
  Result, ok, map, inr, inl, ◌⊎◌, ◌≢◌, ◌∙◌, sym, refl, ◌≡◌, ◌<◌, ◌≤◌, ◌*◌, All, Bool-cases, eqb, ℕ,
  suc, zero, List, [], ◌∷◌, arith,
}

-- What the theorems use of a block of `size` holding registers: a register in it is read back as it
-- was written last, until another one in it is written.
pub record BlockLaws {S : Type 0} (ds : Datastore S) (size : ℕ) : Type 0 where
  pub get-set :
      (s : S) (a v : ℕ) → a < size → ds.get_values (ds.set_values s fc3 a (v ∷ [])) fc3 a 1 ≡ v ∷ []
  pub get-set_other :
      (s : S) (a b v : ℕ)
      → a < size
      → b < size
      → a ≢ b
      → ds.get_values (ds.set_values s fc3 a (v ∷ [])) fc3 b 1 ≡ ds.get_values s fc3 b 1

-- The registers with a value of their own, by address: the settings, the slave id, and the constants
-- of a real meter.
abbrev pub documented : DtsuIdentityConf → ℕ → List (ℕ × ℕ)
documented i slave_id =
    (0, i.rev)
    ∷ (1, i.ucode)
    ∷ (2, i.clr_e)
    ∷ (3, i.net)
    ∷ (4, 1)
    ∷ (6, i.ir_at)
    ∷ (7, i.ur_at)
    ∷ (8, 4)
    ∷ (10, i.disp)
    ∷ (11, i.b_lcd)
    ∷ (12, i.endian)
    ∷ (44, i.protocol)
    ∷ (46, slave_id)
    ∷ (70, 0)
    ∷ []

-- The speed of a code: 1200 baud, doubled with each code.
abbrev pub speed : ℕ → ℕ
speed zero = 1200
speed (suc code) = 2 * speed code

-- The code of a baudrate, which is that of 9600 where no code has the baudrate.
abbrev pub IsBaudCode : ℕ → ℕ → Type 0
IsBaudCode baudrate code =
    (code ≤ 3)
    × ((speed code ≡ baudrate)
        ⊎ ((speed code ≡ 9600) × ((other : ℕ) → other ≤ 3 → speed other ≢ baudrate)))

no_speed :
    (baudrate : ℕ)
    → baudrate ≢ 1200
    → baudrate ≢ 2400
    → baudrate ≢ 4800
    → baudrate ≢ 9600
    → (other : ℕ) → other ≤ 3
    → speed other ≢ baudrate
no_speed b h0 h1 h2 h3 zero l e = h0 (sym e)
no_speed b h0 h1 h2 h3 (suc zero) l e = h1 (sym e)
no_speed b h0 h1 h2 h3 (suc (suc zero)) l e = h2 (sym e)
no_speed b h0 h1 h2 h3 (suc (suc (suc zero))) l e = h3 (sym e)
no_speed b h0 h1 h2 h3 (suc (suc (suc (suc n)))) l e = absurd (omega arith)

baud_code-IsBaudCode : (baudrate : ℕ) → IsBaudCode baudrate (baud_code baudrate)
baud_code-IsBaudCode b = elim (Bool-cases (eqb b 1200)) [
  | inl h0 ↦ coded 0 (ground arith) (omega arith, inl (ground arith))
  | inr n0 ↦ elim (Bool-cases (eqb b 2400)) [
    | inl h1 ↦ coded 1 (ground arith) (omega arith, inl (ground arith))
    | inr n1 ↦ elim (Bool-cases (eqb b 4800)) [
      | inl h2 ↦ coded 2 (ground arith) (omega arith, inl (ground arith))
      | inr n2 ↦ elim (Bool-cases (eqb b 9600)) [
        | inl h3 ↦ coded 3 (ground arith) (omega arith, inl (ground arith))
        | inr n3 ↦ coded 3 (ground arith) (
          omega arith,
          inr (refl, no_speed b (ground arith) (ground arith) (ground arith) (ground arith)),
        )
      ]
    ]
  ]
]
  where
    coded : (code : ℕ) → baud_code b ≡ code → IsBaudCode b code → IsBaudCode b (baud_code b)
    coded code e h = subst (IsBaudCode b) (sym e) h

module _ {S : Type 0} ⦃ds : Datastore S⦄ {size : ℕ} (laws : BlockLaws ds size) where
  abbrev pub Reads : S → ℕ × ℕ → Type 0
  Reads s p = ds.get_values s fc3 p.0 1 ≡ p.1 ∷ []

  abbrev register_writes : List (ℕ × ℕ) → List Write
  register_writes ps = map (λ p. holding p.0 p.1) ps

  -- The registers of a list are in the block, and no two are the same.
  abbrev Spread : List (ℕ × ℕ) → Type 0
  Spread [] = Unit
  Spread (p ∷ ps) = (p.0 < size) × All (λ q. q.0 ≢ p.0) ps × Spread ps

  write_all-kept :
      (s : S) (b : ℕ) (ps : List (ℕ × ℕ))
      → b < size
      → Spread ps
      → All (λ q. q.0 ≢ b) ps
      → ds.get_values (write_all s (register_writes ps)) fc3 b 1 ≡ ds.get_values s fc3 b 1
  unfolding write_all
  write_all-kept s b [] l h n = refl
  write_all-kept s b (p ∷ ps) l h n =
      write_all-kept (ds.set_values s fc3 p.0 (p.1 ∷ [])) b ps l h.2 n.1
      ∙ laws.get-set_other s p.0 b p.1 h.0 l n.0

  write_all-Reads :
      (s : S) (ps : List (ℕ × ℕ)) → Spread ps → All (Reads (write_all s (register_writes ps))) ps
  unfolding write_all
  write_all-Reads s [] h = tt
  write_all-Reads s (p ∷ ps) h =
      let written = ds.set_values s fc3 p.0 (p.1 ∷ []) in
      (
        write_all-kept written p.0 ps h.0 h.2 h.1 ∙ laws.get-set s p.0 p.1 h.0,
        write_all-Reads written ps h.2,
      )

  -- `write_static_registers` writes each register once, in this order.
  abbrev written : DtsuIdentityConf → ℕ → ℕ → List (ℕ × ℕ)
  written i code slave_id =
      (0, i.rev)
      ∷ (1, i.ucode)
      ∷ (2, i.clr_e)
      ∷ (3, i.net)
      ∷ (6, i.ir_at)
      ∷ (7, i.ur_at)
      ∷ (10, i.disp)
      ∷ (11, i.b_lcd)
      ∷ (12, i.endian)
      ∷ (44, i.protocol)
      ∷ (45, code)
      ∷ (46, slave_id)
      ∷ (70, 0)
      ∷ (4, 1)
      ∷ (8, 4)
      ∷ []

  written-Spread :
      (i : DtsuIdentityConf) (code slave_id : ℕ) → 70 < size → Spread (written i code slave_id)
  written-Spread i code slave_id l = ground arith

  pub write_static_registers_serves :
      (s : S) (slave_id baudrate : ℕ) (cfg : DtsuConf)
      → 70 < size
      → baudrate_of cfg.transport cfg.rtu_baudrate ≡ ok baudrate
      → let (outcome, s') = write_static_registers s slave_id cfg in
        (outcome ≡ ok tt)
        × All (Reads s') (documented cfg.identity slave_id)
        × ((code : ℕ) × Reads s' (45, code) × IsBaudCode baudrate code)
  unfolding write_static_registers
  write_static_registers_serves s slave_id baudrate cfg l h =
      let code = baud_code baudrate in
      let image = write_all s (register_writes (written cfg.identity code slave_id)) in
      let (
        r0,
        (
          r1,
          (r2, (r3, (r6, (r7, (r10, (r11, (r12, (r44, (r45, (r46, (r70, (r4, (r8, _))))))))))))),
        ),
      ) =
        write_all-Reads s (written cfg.identity code slave_id)
          (written-Spread cfg.identity code slave_id l) in
      let table : All (Reads image) (documented cfg.identity slave_id) = (
        r0,
        (r1, (r2, (r3, (r4, (r6, (r7, (r8, (r10, (r11, (r12, (r44, (r46, (r70, tt))))))))))))),
      ) in
      let same = write_all_append s (identity_writes cfg.identity) (fixed_writes code slave_id) in
      rw h (
        subst
          (λ s'.
            (Path (Result (Unit {0})) (ok tt) (ok tt))
            × All (Reads s') (documented cfg.identity slave_id)
            × ((c : ℕ) × Reads s' (45, c) × IsBaudCode baudrate c))
          same (refl, table, (code, r45, baud_code-IsBaudCode baudrate)))

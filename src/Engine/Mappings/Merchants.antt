-- ===== src/Engine/Mappings/Merchants.antt =====
-- pfm/app/engine/mappings.py: the merchants whose category is forced, and the tests for them, which
-- ignore case. The lower case of a character that is not ASCII is a parameter; a sigma at the end of a
-- word, which `str.lower` treats apart, is left out.
use Prim.Native.Char.{code}
use thryve_financial.Base.{
  ◌≡◌, refl, ℕ, ◌+◌, String, Bool, true, false, List, [], ◌∷◌, ◌++◌, ◌&&◌, ◌||◌, not, arith, eqb,
  leb, ltb, if◌then◌else◌,
}

-- `EWA_MERCHANTS`
abbrev pub ewa_merchants : List String
ewa_merchants =
    "Earnin" ∷ "Dave Inc" ∷ "Dave" ∷ "Brigit" ∷ "Cleo" ∷ "Albert Cash" ∷ "Albert" ∷ "Floatme"
    ∷ "Klover" ∷ "MoneyLion" ∷ "MoneyLion Instacash" ∷ "Chime MyPay" ∷ "Credit Genie"
    ∷ "Flex Finance" ∷ "Ava Finance" ∷ "Vola Finance" ∷ "True Finance"
    ∷ "Tilt Finance (formerly Empower)" ∷ "Tilt Finance" ∷ []

-- `GAMBLING_MERCHANTS`
abbrev pub gambling_merchants : List String
gambling_merchants =
    "FanDuel" ∷ "FanDuel Sportsbook" ∷ "DraftKings" ∷ "Draft Kings" ∷ "Crown Coins Casino"
    ∷ "Hard Rock Bet" ∷ "BetMGM" ∷ "Bet MGM" ∷ "PrizePicks" ∷ "Prizepicks" ∷ "Chumba Casino"
    ∷ "Fanatics Sportsbook" ∷ "Fanatics" ∷ "Funzpoints" ∷ "Caesars Palace" ∷ "bet365" ∷ "BetRivers"
    ∷ "Golden Nugget Casino" ∷ "Pulsz.com" ∷ "LuckyLand Slots" ∷ "Myprize Games" ∷ "Modo.us"
    ∷ "Sorcery Reels" ∷ "Betfair" ∷ "Jackpocket" ∷ []

abbrev pub ewa_category : String × String
ewa_category = ("debt_and_loans", "cash_advance_ewa")

abbrev pub gambling_category : String × String
gambling_category = ("gambling", "gambling")

abbrev same_codes : List ℕ → List ℕ → Bool
same_codes [] [] = true
same_codes [] (d ∷ ds) = false
same_codes (c ∷ cs) [] = false
same_codes (c ∷ cs) (d ∷ ds) = eqb c d && same_codes cs ds

module _ (lower_other : ℕ → List ℕ) where
  -- `s.lower()`, as the numbers of its characters.
  unfoldable pub lowered : String → List ℕ
  lowered String.[] = []
  lowered (String.◌∷◌ c s) =
      let rest = lowered s in
      if leb 65 (code c) && leb (code c) 90
      then (code c + 32) ∷ rest
      else if ltb (code c) 128
      then code c ∷ rest
      else lower_other (code c) ++ rest

  -- `lowered_key in {m.lower() for m in merchants}`
  unfoldable pub is_listed : List ℕ → List String → Bool
  unfolding lowered
  is_listed key [] = false
  is_listed key (m ∷ merchants) = same_codes key (lowered m) || is_listed key merchants

  unfoldable pub is_ewa_merchant : String → Bool
  unfolding is_listed
  is_ewa_merchant merchant_key = is_listed (lowered merchant_key) ewa_merchants

  unfoldable pub is_gambling_merchant : String → Bool
  unfolding is_listed
  is_gambling_merchant merchant_key = is_listed (lowered merchant_key) gambling_merchants

  -- No name of one list is a name of the other.
  unfoldable apart : List String → List String → Bool
  unfolding is_listed
  apart [] others = true
  apart (m ∷ merchants) others = not (is_listed (lowered m) others) && apart merchants others

  ewa-apart : apart ewa_merchants gambling_merchants ≡ true
  unfolding apart
  ewa-apart = refl

same_codes-eq : (k m : List ℕ) → same_codes k m ≡ true → k ≡ m
same_codes-eq [] [] h = refl
same_codes-eq [] (d ∷ ds) h = ground (arith, h)
same_codes-eq (c ∷ cs) [] h = ground (arith, h)
same_codes-eq (c ∷ cs) (d ∷ ds) h = ground (arith, h, same_codes-eq cs ds)

not_in_both :
    (lower_other : ℕ → List ℕ) (key : List ℕ) (merchants others : List String)
    → apart lower_other merchants others ≡ true
    → (is_listed lower_other key merchants && is_listed lower_other key others) ≡ false
unfolding apart is_listed
not_in_both lower_other key [] others h = refl
not_in_both lower_other key (m ∷ merchants) others h = ground (
  arith,
  h,
  same_codes-eq key (lowered lower_other m),
  not_in_both lower_other key merchants others,
)

-- No merchant is forced into both categories, whatever the case of its name.
pub one_forced_category :
    (lower_other : ℕ → List ℕ) (merchant_key : String)
    → (is_ewa_merchant lower_other merchant_key && is_gambling_merchant lower_other merchant_key)
      ≡ false
unfolding is_ewa_merchant is_gambling_merchant
one_forced_category lower_other merchant_key =
    not_in_both lower_other (lowered lower_other merchant_key) ewa_merchants gambling_merchants
      (ewa-apart lower_other)

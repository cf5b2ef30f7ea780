-- ===== src/Lan/Chain.antt =====
-- Steps of which each can fail, as the `goto fail` of src/plugins/lan/valent-lan-channel-service.c.
use valent.Prelude.{◌≡◌, refl, Bool, true, false, Option, none, some}

infixr 5 ◌>>?◌
-- The rest, with what the step gives.
abbrev pub ◌>>?◌ {ℓ κ} : {A : Type ℓ} {B : Type κ} → Option A → (A → Option B) → Option B
none >>? next = none
some found >>? next = next found

infixr 5 ◌&>>◌
-- The rest, if the test holds.
abbrev pub ◌&>>◌ {ℓ} : {A : Type ℓ} → Bool → Option A → Option A
false &>> rest = none
true &>> rest = rest

pub >>?-eq-some {ℓ κ} :
    {A : Type ℓ} {B : Type κ} (o : Option A) (next : A → Option B) {last : B}
    → (o >>? next) ≡ some last
    → (found : A) × (o ≡ some found) × (next found ≡ some last)
>>?-eq-some none next h = cc
>>?-eq-some (some found) next h = (found, refl, h)

pub &>>-eq-some {ℓ} :
    {A : Type ℓ} (b : Bool) (rest : Option A) {last : A}
    → (b &>> rest) ≡ some last
    → (b ≡ true) × (rest ≡ some last)
&>>-eq-some false rest h = cc
&>>-eq-some true rest h = (refl, h)

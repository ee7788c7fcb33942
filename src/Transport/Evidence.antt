-- ===== src/Transport/Evidence.antt =====
-- What the evidence of a mutation and of a Health check can be
-- (custom_components/hubinet_ops/packages/transport.py).
use hubinet_ops_next.Prelude.{◌≡◌, ap, ◌∙◌, true, some, [], arith, Text, codes, String, is_empty}
use hubinet_ops_next.Prelude.Results.{Result, ok, err, returned}
use hubinet_ops_next.Process.{Mutation}
use hubinet_ops_next.Parser.Lines.{Tables}
use hubinet_ops_next.Parser.Fault.{parse_error, scan_error, Parsed}
use hubinet_ops_next.Parser.Evidence.{Inventory, parse_installed_inventory}
use hubinet_ops_next.Parser.Inventory.{IsListing, parse_installed_inventory-IsListing}
use hubinet_ops_next.Parser.Sound.{is_empty_lem}
use hubinet_ops_next.Transport.{Value, object, text, Fields, get, Target, Failure, text_of}
use hubinet_ops_next.Transport.Identity.{after, past, present_lem, IsReply, replied-IsReply}
use hubinet_ops_next.Transport.Reply.{update_packages}
use hubinet_ops_next.Transport.Update.{inventory_parsed, async_update}

pub text_of_lem : (v : Value) (s : Text) → text_of v ≡ some s → v ≡ text s
text_of_lem (text s) r h = cc
text_of_lem Value.null s h = cc
text_of_lem Value.float s h = cc
text_of_lem Value.array s h = cc
text_of_lem (Value.bool b) s h = cc
text_of_lem (Value.int n) s h = cc
text_of_lem (object fs) s h = cc

inventory_parsed_lem :
    (message : String) (x : Parsed Inventory) (inv : Inventory)
    → inventory_parsed message x ≡ returned inv
    → x ≡ ok inv
inventory_parsed_lem message (ok i) inv h = cc
inventory_parsed_lem message (err (parse_error f s)) inv h = cc
inventory_parsed_lem message (err (scan_error f s)) inv h = cc

-- An inventory of the evidence that parses and has no unfinished package.
pub record IsFinished (e : Fields) (key : String) (inv : Inventory) : Type 0 where
  pub shown : Text
  pub held : get key e ≡ some (text shown)
  pub parses : parse_installed_inventory shown ≡ ok inv
  pub finished : inv.unfinished ≡ []
  pub listing : IsListing inv

finished_lem :
    (e : Fields) (key message : String) (v : Value) (s : Text) (inv : Inventory)
    → get key e ≡ some v
    → text_of v ≡ some s
    → inventory_parsed message (parse_installed_inventory s) ≡ returned inv
    → is_empty inv.unfinished ≡ true
    → IsFinished e key inv
finished_lem e key message v s inv held is_text parsed none_left =
    let parses : parse_installed_inventory s ≡ ok inv = inventory_parsed_lem message _ inv parsed in
    record {
      shown = s;
      held = held ∙ ap some (text_of_lem v s is_text);
      parses = parses;
      finished = is_empty_lem inv.unfinished (ground arith);
      listing = parse_installed_inventory-IsListing s inv parses;
    }

-- When the mutation of an update returns, a successful reply to it, of the very target, had an
-- inventory before it and one after it; both parse, with no unfinished package and no package twice,
-- and what is returned are the versions in them.
pub async_update-IsFinished :
    (tables : Tables) (t : Target) (r : Result Failure Value) (m : Mutation)
    → async_update tables t r ≡ returned m
    → (p : Fields) × (e : Fields) × (before : Inventory) × (after_it : Inventory) × (r
        ≡ ok (object p))
      × IsReply t (codes "update_packages") p e
      × IsFinished e "before_inventory" before
      × IsFinished e "after_inventory" after_it
      × (m.before ≡ before.versions)
      × (m.after ≡ after_it.versions)
unfolding async_update
async_update-IsFinished tables t r m h = after h λ e reply h1.
    after h1 λ before_value before_key h2. after h2 λ after_value after_key h3.
      after h3 λ before_text before_is h4. after h4 λ after_text after_is h5.
        after h5 λ before before_parsed h6. after h6 λ after_it after_parsed h7.
          past _ _ _ h7 λ finished h8.
            let (valid, (p, got, is_reply)) = replied-IsReply t update_packages _ _ r e reply in
            (
              p,
              e,
              before,
              after_it,
              got,
              is_reply,
              finished_lem e "before_inventory" _ before_value before_text before
                  (present_lem _ (get "before_inventory" e) before_value before_key)
                  (present_lem _ (text_of before_value) before_text before_is) before_parsed
                  (ground arith),
              finished_lem e "after_inventory" _ after_value after_text after_it
                  (present_lem _ (get "after_inventory" e) after_value after_key)
                  (present_lem _ (text_of after_value) after_text after_is) after_parsed
                  (ground arith),
              cc,
              cc,
            )

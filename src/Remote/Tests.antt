-- ===== src/Remote/Tests.antt =====
-- Addresses, links and names at concrete machines, and the theorems of this folder at them.
use sessionhub.Base.{
  take, ℕ, ◌≤◌, ◌<◌, ◌≡◌, ◌⊎◌, refl, Bool, true, false, List, [], ◌∷◌, ◌++◌, none, codes, arith,
  All,
}
use sessionhub.Base.Result.{err, ok}
use sessionhub.Utf8.{Text, is_whitespace, encode_char}
use sessionhub.Remote.{reordered, Remote, find, candidate, unique_name, base64, percent_encode}
use sessionhub.Remote.Reordered.{NamesOnce, reordered-NamesOnce}
use sessionhub.Remote.Names.{IsTaken, unique_name-first}
use sessionhub.Remote.Address.{Target, parse_addr, canonical, parse_link, pair_link, no_port}
use sessionhub.Remote.Address.RoundTrip.{parse_addr-canonical}
use sessionhub.Remote.Address.Parts.{is_host_char}
use sessionhub.Remote.Address.Links.{parse_link-pair_link}

-- No text is an address of a number, and all is lower case: enough for the runs here.
abbrev no_ip : Text → Bool
no_ip host = false

abbrev as_is : Text → Text
as_is cs = cs

abbrev box : Target
box = record { tls = true; host = codes "box.example.com"; port = 8443 }

reads_a_bare_host :
    parse_addr no_ip as_is (codes " box/ ")
    ≡ ok (record { tls = false; host = codes "box"; port = 7717 })
unfolding parse_addr is_whitespace
reads_a_bare_host = refl

needs_a_port : parse_link no_ip as_is (codes "box#token=t") ≡ err no_port
unfolding parse_link is_whitespace
needs_a_port = refl

-- A host with a colon under TLS is written without brackets, and read back as another one.
zone_is_lost :
    parse_addr no_ip as_is
      (canonical (record { tls = true; host = codes "fe80::1%25e"; port = 8443 }))
    ≡ ok (record { tls = true; host = codes "fe80::1%25e:8443"; port = 443 })
unfolding parse_addr canonical is_whitespace
zone_is_lost = refl

pads : base64 (codes "ab") ≡ codes "YWI="
unfolding base64
pads = refl

encodes : percent_encode (codes "C:\\a b") ≡ codes "C%3A%5Ca%20b"
unfolding percent_encode encode_char
encodes = refl

parse_addr-canonical_example : parse_addr no_ip as_is (canonical box) ≡ ok box
parse_addr-canonical_example =
    parse_addr-canonical no_ip as_is (λ cs h. refl) box
      ((λ e. cc, all_chars), omega arith, omega arith, λ e. refl)
  where
    all_chars : All (λ c. is_host_char c ≡ true) (codes "box.example.com")
    all_chars = (
      refl,
      (
        refl,
        (
          refl,
          (
            refl,
            (
              refl,
              (refl, (refl, (refl, (refl, (refl, (refl, (refl, (refl, (refl, (refl, tt)))))))))),
            ),
          ),
        ),
      ),
    )

parse_link-pair_link_example :
    parse_link no_ip as_is (pair_link (codes "box") 7717 (codes "s=1"))
    ≡ ok (record {
      host = codes "box";
      port = 7717;
      tls = false;
      token = codes "s=1";
      access_id = [];
      access_secret = [];
    })
unfolding is_whitespace
parse_link-pair_link_example =
    parse_link-pair_link no_ip as_is (λ cs h. refl) (codes "box") 7717 (codes "s=1")
      (λ e. cc, (refl, (refl, (refl, tt)))) (omega arith) (omega arith)
      (λ e. cc, (refl, (refl, (refl, tt))), (refl, (refl, (refl, tt))))

abbrev one_box : List Remote
one_box =
    record {
      name = codes "box";
      addr = codes "box:7717";
      token = codes "t";
      version = [];
      access_id = [];
      access_secret = [];
    }
    ∷ []

takes_the_next : unique_name one_box (codes "box") ≡ codes "box-2"
unfolding unique_name
takes_the_next = refl

unique_name-first_example :
    ((unique_name one_box (codes "box") ≡ codes "box") × (find one_box (codes "box") ≡ none))
    ⊎ (IsTaken one_box (codes "box")
        × (((k : ℕ) × (2 ≤ k)
              × (k < 1000)
              × (unique_name one_box (codes "box") ≡ candidate (codes "box") k)
              × (find one_box (candidate (codes "box") k) ≡ none)
              × ((j : ℕ) → 2 ≤ j → j < k → IsTaken one_box (candidate (codes "box") j)))
            ⊎ ((unique_name one_box (codes "box") ≡ codes "box" ++ codes "-x")
                × ((j : ℕ) → 2 ≤ j → j < 1000 → IsTaken one_box (candidate (codes "box") j)))))
unique_name-first_example = unique_name-first one_box (codes "box")

abbrev two_boxes : List Remote
two_boxes =
    record {
      name = codes "a";
      addr = codes "a:1";
      token = [];
      version = [];
      access_id = [];
      access_secret = [];
    }
    ∷ one_box

named_first :
    reordered two_boxes (codes "box" ∷ codes "?" ∷ codes "box" ∷ []) ≡ one_box ++ take 1 two_boxes
unfolding reordered
named_first = refl

reordered-NamesOnce_example :
    NamesOnce (reordered two_boxes (codes "box" ∷ []))
    × ((n : Text) → find (reordered two_boxes (codes "box" ∷ [])) n ≡ find two_boxes n)
reordered-NamesOnce_example = reordered-NamesOnce two_boxes (codes "box" ∷ [])

-- ===== src/OsTrust/Sample.antt =====
-- A policy, a release and tools that take a text for its own base64 and every signature for good.
use epilykos_os.Base.{
  ℕ, String, Bool, true, ◌++◌, if◌then◌else◌, Option, some, [], Text, codes, same_codes,
}
use epilykos_os.Json.{
  Json, int, str, array, object, empty, element, Members, end, member, field, is_str,
}
use epilykos_os.OsTrust.{Tools, ed25519_spki, Trust, Board}

abbrev pub text : String → Json
text s = str (codes s)

abbrev pub a_member : String → Json → Members → Members
a_member k v ms = member (codes k) v ms

abbrev pub key_bytes : Text
key_bytes = codes "kkkkkkkkkkkkkkkkkkkkkkkkkkkkkkkk"

abbrev pub signature : Text
signature = codes "ssssssssssssssssssssssssssssssssssssssssssssssssssssssssssssssss"

abbrev pub sha : String
sha = "0123456789abcdef0123456789abcdef0123456789abcdef0123456789abcdef"

abbrev pub root_pem : Text
root_pem = codes "-----BEGIN PUBLIC KEY-----\nAA==\n-----END PUBLIC KEY-----\n"

abbrev pub policy_of : ℕ → Json
policy_of epoch = object (
    a_member "schema" (int 1) (
      a_member "board" (text "raspberrypi3") (
        a_member "channel" (text "stable") (
          a_member "trust_epoch" (int epoch) (
            a_member "index_keys"
              (array (
                element
                  (object
                    (a_member "key_id" (text "k1") (a_member "public_key" (str key_bytes) end)))
                  empty))
              (a_member "rauc_cas"
                (array (
                  element (text "-----BEGIN CERTIFICATE-----\nAA==\n-----END CERTIFICATE-----\n")
                    empty))
                (a_member "rauc_leaf_spki_sha256" (array (element (text sha) empty)) end)))))))

abbrev pub entry : Json
entry = object (
    a_member "schema" (int 1) (
      a_member "board" (text "raspberrypi3") (
        a_member "channel" (text "stable") (
          a_member "sequence" (int 9) (
            a_member "trust_epoch" (int 2) (
              a_member "index_key_id" (text "k1") (
                a_member "version" (text "1.9") (
                  a_member "boot_protocol" (int 2) (
                    a_member "min_host_api" (int 2) (
                      a_member "bundle"
                        (object (
                          a_member "url" (text "https://a/b")
                            (a_member "size" (int 100) (a_member "sha256" (text sha) end))))
                        (a_member "notes_url" (text "https://a/n") end)))))))))))

-- The parts of the platform that the checks ask for.
abbrev pub platform : Json
platform = object (
    a_member "board" (text "raspberrypi3") (
      a_member "channel" (text "stable")
        (a_member "os_sequence" (int 7) (a_member "host_api" (int 2) end))))

abbrev pub read : Text → Option Json
read raw = if same_codes raw (codes "entry") then some entry else some (policy_of 2)

abbrev pub write : Json → Option Text
write v =
    if is_str (codes "k1") (field "index_key_id" v)
    then some (codes "entry")
    else some (codes "policy")

abbrev pub tools : Tools
tools = record {
  loads = read;
  canonical = write;
  b64decode = λ t. some t;
  b64encode = λ t. t;
  der_of = λ _. some (ed25519_spki ++ key_bytes);
  accepts = λ _ _ _. true;
  constraints_of = λ _. some (codes "CA:TRUE");
  read_manifest = λ _. some [];
}

abbrev pub printed : Text
printed =
    codes
      "epk_trust_policy=policy\nepk_trust_epoch=2\nepk_os_floor=5\nepk_state_schema=1\nepk_trust_policy_sig="
    ++ signature

abbrev pub board : Board Bool
board = record { print = λ _. some printed; set_env = λ _ e. (true, e) }

abbrev pub before : Trust
before = record {
  policy = policy_of 1;
  raw = codes "old";
  signature = signature;
  trust_epoch = 1;
  floor = 5;
}

abbrev pub after : Trust
after = record {
  policy = policy_of 2;
  raw = codes "policy";
  signature = signature;
  trust_epoch = 2;
  floor = 5;
}

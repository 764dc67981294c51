-- ===== src/Tests/Requests.antt =====
-- cregserv.c: the requests to register a channel.
use euskal_irc_services_bdd.Base.{◌≡◌, refl, inl, true, none, some, [], codes, Bytes}
use euskal_irc_services_bdd.Chars.{tolower}
use euskal_irc_services_bdd.Cregserv.{CregInfo, Cregs, Person, do_apoya, cr_aceptado}
use euskal_irc_services_bdd.Cregserv.Request.{do_registra, unregistered}
use euskal_irc_services_bdd.Cregserv.Steps.{here, after, registra, apoya}
use euskal_irc_services_bdd.Cregserv.States.{rechazado}
use euskal_irc_services_bdd.Cregserv.Votes.{IsRequest, Reach-IsRequest}

abbrev blank : CregInfo
blank = record {
  founder = [];
  founderpass = [];
  seccion = 0;
  geo = 0;
  tipo = 0;
  desc = [];
  email = [];
  time_peticion = 0;
  nickoper = none;
  time_motivo = 0;
  motivo = none;
  passapoyo = [];
  time_lastapoyo = 0;
  estado = 4;
  apoyos = [];
}

abbrev nothing : Cregs
nothing = record { registry = record { name = λ _. []; lists = λ _. [] }; info = λ _. blank }

abbrev person : Bytes → Bytes → Person
person nick token = record {
  nick = nick;
  ni = some (nick, codes "a@b.c");
  identified = true;
  creg_apoyo = token;
}

-- The request of ana, at the pointer 7, where one support is enough
abbrev asked : Cregs
unfolding do_registra
asked =
    (do_registra 100 1 7 (codes "00042") (codes "#irc") (codes "secret") (person (codes "ana") [])
      unregistered nothing (codes "soc") (some (codes "a channel"))).0

-- Then bea supports it, with the word that she has been told.
abbrev voted : Cregs
unfolding asked do_apoya
voted =
    (do_apoya 200 1 (codes "00007") (person (codes "bea") (codes "00007")) asked
      (some (codes "#IRC")) (some (codes "00007"))).0

blank-IsRequest : IsRequest 1 blank
blank-IsRequest = record {
  state = rechazado;
  nicks = tt;
  emails = tt;
  others = tt;
  pending = inl refl;
  voted = inl refl;
}

Reach-IsRequest_example : IsRequest 1 (voted.info 7)
unfolding voted asked
Reach-IsRequest_example =
    Reach-IsRequest 1 nothing voted (λ _. blank-IsRequest)
      (after asked voted
        (after nothing asked here (
          registra 100 7 (codes "00042") (codes "#irc") (codes "secret") (person (codes "ana") [])
            unregistered (codes "soc") (some (codes "a channel"))))
        (apoya 200 (codes "00007") (person (codes "bea") (codes "00007")) (some (codes "#IRC"))
          (some (codes "00007"))))
      7

-- One support was enough, and it has the e-mail of the founder, which is looked for only beside earlier
-- supports.
voted_test : (voted.info 7).estado ≡ cr_aceptado
unfolding voted tolower
voted_test = refl

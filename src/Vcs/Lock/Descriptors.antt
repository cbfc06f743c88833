-- ===== src/Vcs/Lock/Descriptors.antt =====
-- Whose the descriptors are: each is registered for one key or in the hands of one thread, and has
-- locked the file of its key.
use agentic_ai_software_engi.Base.{
  ℕ, ◌+◌, ◌<◌, ◌≡◌, ◌≢◌, Text, text_eq, nat_eq, Option, none, some, ◌==◌, if◌then◌else◌, arith,
}
use agentic_ai_software_engi.Base.Dict.{Dict, lookup, insert, erase, lookup-insert, lookup-erase}
use agentic_ai_software_engi.Vcs.Lock.{Holder, ours, theirs}

abbrev pub Flight : Type 0
Flight = ℕ → Option (Text × ℕ)

abbrev pub in_hand : ℕ → Option (Text × ℕ) → Flight → Flight
in_hand t x f u = if u == t then x else f u

module _ (path : Text → Text) where
  pub record IsSound (files : Dict Text Holder) (fds : Dict Text ℕ) (next : ℕ) (flight : Flight)
      : Type 0 where
    pub locked :
        (k : Text) (fd : ℕ) → lookup k fds ≡ some fd → lookup (path k) files ≡ some (ours fd)
    pub flying :
        (t fd : ℕ) (k : Text) → flight t ≡ some (k, fd) → lookup (path k) files ≡ some (ours fd)
    pub apart : (t fd : ℕ) (k j : Text) → flight t ≡ some (k, fd) → lookup j fds ≢ some fd
    pub alone :
        (t u fd : ℕ) (k j : Text) → flight t ≡ some (k, fd) → flight u ≡ some (j, fd) → t ≡ u
    pub single : (fd : ℕ) (k j : Text) → lookup k fds ≡ some fd → lookup j fds ≡ some fd → k ≡ j
    pub fresh : (file : Text) (fd : ℕ) → lookup file files ≡ some (ours fd) → fd < next

  module _ (files : Dict Text Holder) (fds : Dict Text ℕ) (next : ℕ) (flight : Flight)
      (s : IsSound files fds next flight) where
    pub take-IsSound :
        (t : ℕ) (k : Text)
        → lookup (path k) files ≡ none
        → flight t ≡ none
        → IsSound
            (insert (path k) (ours next) files)
            fds
            (next + 1)
            (in_hand t (some (k, next)) flight)
    take-IsSound t k free h = record {
      locked = λ j fd e.
          ground (arith, s.locked j fd, lookup-insert (path j) (path k) (ours next) files);
      flying = λ u fd j e.
          ground (arith, s.flying u fd j, lookup-insert (path j) (path k) (ours next) files);
      apart =
          λ u fd k' j e d. ground (arith, s.apart u fd k' j, s.locked j fd, s.fresh (path j) fd);
      alone = λ u v fd k' j e d. ground (
        arith,
        s.alone u v fd k' j,
        s.flying u fd k',
        s.fresh (path k') fd,
        s.flying v fd j,
        s.fresh (path j) fd,
      );
      single = s.single;
      fresh = λ file fd e.
          ground (arith, s.fresh file fd, lookup-insert file (path k) (ours next) files);
    }

    pub register-IsSound :
        (t fd : ℕ) (k : Text)
        → flight t ≡ some (k, fd)
        → IsSound files (insert k fd fds) next (in_hand t none flight)
    register-IsSound t fd k h = record {
      locked = λ j g e. ground (arith, s.locked j g, s.flying t fd k, lookup-insert j k fd fds);
      flying = λ u g j e. ground (arith, s.flying u g j);
      apart = λ u g k' j e d.
          ground (arith, s.apart u g k' j, lookup-insert j k fd fds, s.alone u t g k' k);
      alone = λ u v g k' j e d. ground (arith, s.alone u v g k' j);
      single = λ g j k' e d. ground (
        arith,
        s.single g j k',
        s.apart t fd k j,
        s.apart t fd k k',
        lookup-insert j k fd fds,
        lookup-insert k' k fd fds,
      );
      fresh = s.fresh;
    }

    pub pop-IsSound :
        (t fd : ℕ) (k : Text)
        → lookup k fds ≡ some fd
        → flight t ≡ none
        → IsSound files (erase k fds) next (in_hand t (some (k, fd)) flight)
    pop-IsSound t fd k h n = record {
      locked = λ j g e. ground (arith, s.locked j g, lookup-erase j k fds);
      flying = λ u g j e. ground (arith, s.flying u g j, s.locked k fd);
      apart =
          λ u g k' j e d. ground (arith, s.apart u g k' j, lookup-erase j k fds, s.single fd j k);
      alone =
          λ u v g k' j e d. ground (arith, s.alone u v g k' j, s.apart u g k' k, s.apart v g j k);
      single = λ g j k' e d.
          ground (arith, s.single g j k', lookup-erase j k fds, lookup-erase k' k fds);
      fresh = s.fresh;
    }

    pub drop-IsSound :
        (t fd : ℕ) (k : Text)
        → flight t ≡ some (k, fd)
        → IsSound (erase (path k) files) fds next (in_hand t none flight)
    drop-IsSound t fd k h = record {
      locked = λ j g e. ground (
        arith,
        s.locked j g,
        lookup-erase (path j) (path k) files,
        s.flying t fd k,
        s.apart t fd k j,
      );
      flying = λ u g j e. ground (
        arith,
        s.flying u g j,
        lookup-erase (path j) (path k) files,
        s.flying t fd k,
        s.alone u t g j k,
      );
      apart = λ u g k' j e d. ground (arith, s.apart u g k' j);
      alone = λ u v g k' j e d. ground (arith, s.alone u v g k' j);
      single = s.single;
      fresh = λ file g e. ground (arith, s.fresh file g, lookup-erase file (path k) files);
    }

    pub erase-IsSound : (k : Text) → lookup k fds ≡ none → IsSound files (erase k fds) next flight
    erase-IsSound k h = record {
      locked = λ j g e. ground (arith, s.locked j g, lookup-erase j k fds);
      flying = s.flying;
      apart = λ u g k' j e d. ground (arith, s.apart u g k' j, lookup-erase j k fds);
      alone = s.alone;
      single = λ g j k' e d.
          ground (arith, s.single g j k', lookup-erase j k fds, lookup-erase k' k fds);
      fresh = s.fresh;
    }

    pub foreign_lock-IsSound :
        (file : Text)
        → lookup file files ≡ none
        → IsSound (insert file theirs files) fds next flight
    foreign_lock-IsSound file h = record {
      locked = λ j g e. ground (arith, s.locked j g, lookup-insert (path j) file theirs files);
      flying = λ u g j e. ground (arith, s.flying u g j, lookup-insert (path j) file theirs files);
      apart = s.apart;
      alone = s.alone;
      single = s.single;
      fresh = λ f g e. ground (arith, s.fresh f g, lookup-insert f file theirs files);
    }

    pub foreign_unlock-IsSound :
        (file : Text) → lookup file files ≡ some theirs → IsSound (erase file files) fds next flight
    foreign_unlock-IsSound file h = record {
      locked = λ j g e. ground (arith, s.locked j g, lookup-erase (path j) file files);
      flying = λ u g j e. ground (arith, s.flying u g j, lookup-erase (path j) file files);
      apart = s.apart;
      alone = s.alone;
      single = s.single;
      fresh = λ f g e. ground (arith, s.fresh f g, lookup-erase f file files);
    }

    pub fresh-IsSound : (n : ℕ) → next < n → IsSound files fds n flight
    fresh-IsSound n h = record {
      locked = s.locked;
      flying = s.flying;
      apart = s.apart;
      alone = s.alone;
      single = s.single;
      fresh = λ f g e. ground (arith, s.fresh f g);
    }

    pub same-IsSound : (f : Flight) → ((u : ℕ) → f u ≡ flight u) → IsSound files fds next f
    same-IsSound f h = record {
      locked = s.locked;
      flying = λ u g j e. ground (arith, s.flying u g j, h u);
      apart = λ u g k' j e d. ground (arith, s.apart u g k' j, h u);
      alone = λ u v g k' j e d. ground (arith, s.alone u v g k' j, h u, h v);
      single = s.single;
      fresh = s.fresh;
    }

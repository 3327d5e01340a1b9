-- ===== src/Effects/Kinds.antt =====
-- Kinds of calls, and the predicates on calls that the proofs use.
use agentic_dev_pipeline.Effects.{
  Call, create_comment, edit_pull, get_dev_task, get_issue, get_pod, get_pull, get_secret,
  list_comments, list_dev_tasks, list_files, list_issues, list_pulls, load_transport,
  lock_transports, mint_token, new_transport, now, remove_label, store_transport, unlock_transports,
}

pub data CallKind : Type 0 where
  credential_read pull_read comment_read review_read other_read comment_write pull_write
        cluster_write :
      CallKind

abbrev pub kind : Call → CallKind
kind (get_secret ns name) = credential_read
kind lock_transports = credential_read
kind unlock_transports = credential_read
kind (load_transport key) = credential_read
kind (store_transport key tr) = credential_read
kind (new_transport app inst pem) = credential_read
kind (mint_token tr) = credential_read
kind (get_pull c n) = pull_read
kind (list_pulls c state) = pull_read
kind (list_comments c n) = comment_read
kind (list_files c n page) = review_read
kind (get_issue c n) = review_read
kind (get_dev_task ns name) = other_read
kind (list_dev_tasks ns) = other_read
kind (get_pod ns name) = other_read
kind (list_issues c label state) = other_read
kind now = other_read
kind (create_comment c n body) = comment_write
kind (remove_label c n label) = comment_write
kind (edit_pull c n state) = pull_write
kind _ = cluster_write

abbrev pub CredentialKind : CallKind → Type 0
CredentialKind credential_read = Unit
CredentialKind _ = ⊥

abbrev pub LookupKind : CallKind → Type 0
LookupKind credential_read = Unit
LookupKind pull_read = Unit
LookupKind _ = ⊥

abbrev pub TalkKind : CallKind → Type 0
TalkKind credential_read = Unit
TalkKind pull_read = Unit
TalkKind comment_read = Unit
TalkKind comment_write = Unit
TalkKind _ = ⊥

abbrev pub AsideKind : CallKind → Type 0
AsideKind cluster_write = ⊥
AsideKind _ = Unit

-- The calls that read credentials.
abbrev pub IsCredential : Call → Type 0
IsCredential c = CredentialKind (kind c)

-- Those, and the calls that read a pull request.
abbrev pub IsLookup : Call → Type 0
IsLookup c = LookupKind (kind c)

-- Those, and the calls that read or write comments and labels.
abbrev pub IsTalk : Call → Type 0
IsTalk c = TalkKind (kind c)

-- All calls but those that write to the cluster.
abbrev pub IsAside : Call → Type 0
IsAside c = AsideKind (kind c)

lookup_kind : (k : CallKind) → CredentialKind k → LookupKind k
lookup_kind credential_read h = tt
lookup_kind _ h = absurd h

aside_kind : (k : CallKind) → LookupKind k → AsideKind k
aside_kind credential_read h = tt
aside_kind pull_read h = tt
aside_kind _ h = absurd h

talk_kind : (k : CallKind) → LookupKind k → TalkKind k
talk_kind credential_read h = tt
talk_kind pull_read h = tt
talk_kind _ h = absurd h

talk_aside : (k : CallKind) → TalkKind k → AsideKind k
talk_aside credential_read h = tt
talk_aside pull_read h = tt
talk_aside comment_read h = tt
talk_aside comment_write h = tt
talk_aside _ h = absurd h

pub IsCredential→IsTalk : (c : Call) → IsCredential c → IsTalk c
IsCredential→IsTalk c h = talk_kind (kind c) (lookup_kind (kind c) h)

pub IsTalk→IsAside : (c : Call) → IsTalk c → IsAside c
IsTalk→IsAside c h = talk_aside (kind c) h

pub IsCredential→IsLookup : (c : Call) → IsCredential c → IsLookup c
IsCredential→IsLookup c h = lookup_kind (kind c) h

pub IsLookup→IsAside : (c : Call) → IsLookup c → IsAside c
IsLookup→IsAside c h = aside_kind (kind c) h

pub IsCredential→IsAside : (c : Call) → IsCredential c → IsAside c
IsCredential→IsAside c h = aside_kind (kind c) (lookup_kind (kind c) h)

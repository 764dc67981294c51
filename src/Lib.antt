-- ===== src/Lib.antt =====
-- EuskalIRC Services: a model of the core of the IRC services.
--
-- The program is one process that speaks the protocol of an IRC server. A line is split into its
-- arguments (process.c) and goes to a handler; the handlers keep the tables of users (users.c) and of
-- channels (channels.c), ask the services for their decisions, and send lines back. Timed actions
-- (timeout.c), autokills (akill.c) and the tables of commands (commands.c) are lists beside these, and
-- what lasts is written to database files (datafiles.c). The bytes from the server come through a ring
-- buffer, and those to it go through another (sockutil.c). All of it stands on the strings of misc.c.
--
-- The build that is modelled is that of an Undernet P09 network with the patches of IRC-Hispano
-- (IRC_UNDERNET, IRC_UNDERNET_P09, IRC_PATCHS_P09 and IRC_HISPANO), without P10 and IRC_PATCHS_CMODES.
--
-- Files, and the code that they are about:
--   Base        shared names, Boolean tests, lists over the native numbers, byte strings
--   Chars       misc.c, compat.c: the folds of case (toupper, tolower, the two tables, stricmp)
--   Text        misc.c: strscpy, stristr, strupper, strlower, strCasecmp, strToken, strnrepl;
--               Copy, Token, Replace and Search hold the theorems
--   Wild        misc.c: do_match_wild, match_wild, match_wild_nocase; Spec says what a match is,
--               and Complete which of the texts that match are accepted
--   Duration    misc.c: dotime; Laws
--   Datafiles   datafiles.c: versions, numbers, pointers and strings in a file; Roundtrip; Items is the
--               loops over the items of a file
--   Akill       akill.c: add_akill, del_akill, expire_akills, check_akill; Command holds AKILL ADD and
--               DEL of do_akill (akill_add, akill_del); Files is load_akill and save_akill for the
--               versions 5 to 8; Lists, Check and Masks the theorems
--   Akicks      chanakicks.c: add_achanakick, del_achanakick, borra_akick; Removed, Deleted
--   News        news.c: LOGONNEWS and OPERNEWS (do_news, add_newsitem, del_newsitem); Files is load_news and
--               save_news; Deleted and Numbered hold the theorems
--   Cregserv    cregserv.c: the table of requests, do_apoya, do_cancela, expire_creg; Sections and Request are
--               do_registra and do_reg, Admin the commands of the administrators; Changes, Decided and Asked
--               say what each may do to a request, States which states there are; Steps is a step of the
--               program, Votes the theorem
--   Users       users.c: the hash table (new_user is link_user, change_user_nick, finduser); Find
--   Channel     channels.c: a channel and MODE up to the check of the lock
--               (change_modes, of do_cmode; cmode_step is the switch on one letter); Modes,
--               Flags, Bans, Members and Admitted hold the theorems, Walk is firstchan and nextchan
--   Chanlist    channels.c: findchan, chan_adduser, chan_deluser; users.c: is_chanop, is_voiced; Counts,
--               Valid, Leave, Join, Lookup and Presence hold the theorems
--   Network     users.c: do_join, do_part, do_kick, do_quit and do_kill, delete_user, on the tables of users
--               and of channels together; Entries, Consistent, Leave and Reach hold the theorems
--   Nicks       nickserv.c: getlink, nick_identified, nick_recognized; operserv.c: is_services_root to
--               is_services_patrocina; users.c: is_oper; Links, Ranked
--   Chanserv    chanserv.c: get_access, check_access, reset_levels; Checks is check_valid_op,
--               check_valid_voice, check_should_op, check_should_voice, and check_akick of chanakicks.c;
--               AccessList is do_access, with Guarded (on Seniors) and Ranges (on AccessList/Levels);
--               Removal is cs_remove_nick;
--               Levels, Agree and Safety hold the theorems, Modes those on MODE under these checks; Locks
--               is check_modes with its guards, and the whole of do_cmode; Locks/Held and Operators say what
--               they make of the modes and that they keep the operators
--   Registry    chanserv.c, nickserv.c: the tables of registered channels and nicks (alpha_insert_chan,
--               cs_findchan, delchan, alpha_insert_nick, delnick, findnick); Order, Sorted, Table, Findnick
--   Servers     servers.c: add_server, del_server, find_servername, recursive_squit, do_server, do_squit;
--               Cache, Squit and Whole hold the theorems
--   Memos       memoserv.c: do_send from the delay on, do_cancel, delmemo; Numbers, Deleted
--   Commands    commands.c: lookup_cmd, run_cmd, help_cmd; Replies
--   Process     process.c: add_ignore, almacena_debugserv, get_ignore, get_debugserv, split_buf; Expiry
--               and Arguments hold the theorems
--   Netbuf      sockutil.c: the read buffer, read_buffer_len and buffered_read_one; Queue, Read; Write is the
--               write buffer, write_buffer_len, flush_write_buffer and buffered_write, with the theorems in
--               Put, Sent and Written
--   Timeouts    timeout.c: add_timeout, del_timeout, check_timeouts; Run
--   Tests       runs of the theorems and the definitions on small inputs
--
-- A C string is the list of its bytes before the terminator; a buffer, where its cells matter, is a list
-- of cells, and a write outside gives `none`. A pointer to a user is a number, a list linked by `next` is
-- a List, and a table is a function from the index of its cell. State goes in and comes out of each
-- operation. The functions of the C library (isupper, isdigit, isspace, strtol, fgetc, fputc, fwrite) are
-- modelled as far as the program relies on them, in the C locale; an overflow of an `int` is `none`. The
-- time is an argument. Times are not negative but for those of a file: load_akill and load_news extend the
-- sign of an int32, and give the 64 bits of the time_t.
--
-- What other parts decide is a parameter: Policy (check_valid_op and check_valid_voice), for which
-- Chanserv.Modes gives the decisions of ChanServ; Entry (check_should_op, check_should_voice, and the modes
-- that check_modes gives a new channel); check_akick for JOIN, both of which may differ
-- from one JOIN to the next; what the overlapping memcpy of del_newsitem leaves; Ranks (is_services_root and the others),
-- the routines of commands and the actions of timeouts. The channel that cs_findchan gives is an argument
-- of the checks of Chanserv.
--
-- A read through a NULL pointer is `none` in Chanserv and in Servers, and in Network where JOIN stores one.
-- A JOIN of an empty name, of which HASH reads the bytes behind the terminator, is `none` too, and so is a
-- memo behind the 32767th, where the int16 memocount overflows.
-- Freed memory keeps its contents. In Chanserv `getlink` counts with its value alone, and the messages, the
-- ban and the time of the last use that a check leads to are left out, as are the counters of users and the
-- data of NickServ in Network, and the users of a server that goes in Servers.
--
-- Loops over a string or a list recurse on it. The others have fuel: expire_akills and
-- del_newsitem as many rounds as there are entries, each of which is passed or removed; borra_akick, which
-- begins anew behind each removal, n * (n + 1) for n entries; split_buf as many as the string has bytes, strnrepl
-- one more, and the scan by strToken two more; and a walk over a table as many as it sees nodes. getlink has
-- the 511 steps of the source. recursive_squit needs no more fuel than there are servers below, the walks over
-- children no more than there are siblings, and they have that fuel as a hypothesis.
--
-- The two buffers have any size; what each call of read gives, up to the room in the buffer, is a list of
-- counts, and what the socket does at each flush is a function of the number of the call. The loop of
-- buffered_write has two rounds more than there are bytes as fuel; where the bytes fit into the buffer it
-- needs two.
--
-- What the calls of chanserv.c and nickserv.c answer is an argument of Cregserv (ChanCalls, ChanState), as is
-- findnick of AccessList (Directory). chanserv.c also sets the state of a request when a channel expires or is
-- dropped, which is no step of Cregserv.
--
-- Not modelled: most commands of the services (ChanServ, NickServ, MemoServ, OperServ and the others), the
-- other functions on the socket, start-up and configuration, logs, languages, and sending of lines.
pub mod Base
pub mod Chars
pub mod Text
pub mod Wild
pub mod Datafiles
pub mod Duration
pub mod Akicks
pub mod Akill
pub mod News
pub mod Users
pub mod Channel
pub mod Chanlist
pub mod Chanserv
pub mod Commands
pub mod Cregserv
pub mod Netbuf
pub mod Nicks
pub mod Network
pub mod Process
pub mod Memos
pub mod Registry
pub mod Servers
pub mod Timeouts
mod Tests

-- ===== src/Lib.antt =====
-- The scheduling core of fcron, a periodic command scheduler, as functions on explicit states.
--
-- fcron keeps the lines of all fcrontabs with the time of their next execution, a queue of jobs in
-- the order of that time, a queue of serial jobs, a list of jobs that wait for a low system load,
-- and a list of running jobs. Its main loop sleeps until the first job is due (next_wake_time),
-- runs the jobs that are due and computes their next execution (test_jobs, set_next_exe), looks at
-- the load (check_lavg), and takes note of the jobs that have ended (wait_chld). All of these are
-- functions of database.c, on the globals of fcron.c. The lines, with the time of their next
-- execution, survive a restart in binary files, which save.c writes and conf.c reads. The lines
-- come from fcrontabs, texts of the users that fileconf.c reads; a user may ask the daemon for the
-- state of the jobs, or have one run, by the commands of fcrondyn_svr.c.
--
-- Files and code:
--   Bits        bitstring.h, and the internal macros of option.h: bit arrays as lists of bytes
--   Opt         option.h: the options of a line
--   Line        cl.h: the fields of a line that scheduling reads
--   Calendar    database.c: is_leap_year, get_nb_mdays, set_wday
--   Period      database.c: goto_beginning_next_period_periodical
--   Search      database.c: the search of set_next_exe, from the label setMonth to set_cl_nextexe, as
--               steps between the labels
--   Clock       database.c: switch_timezone, switch_back_timezone, mktime_no_dst
--   Interval    database.c: move_time_to
--   Schedule    database.c: set_next_exe, set_next_exe_notrun
--   JobQueue    database.c: job_queue_remove, insert_nextexe, next_wake_time
--   Serial      database.c: the ring serial_array in add_serial_job and run_serial_job
--   UList       u_list.c, on which exe_list.c and lavg_list.c stand
--   State       the globals of fcron.c, and what is fixed while the daemon runs
--   Run         database.c: run_queue_job, run_normal_job, run_lavg_job, run_serial_job
--   Enqueue     database.c: add_serial_job, add_lavg_job, mail_notrun
--   Account     what cl_numexe counts
--   Jobs        database.c: test_jobs
--   Children    database.c: wait_chld, wait_all
--   LoadAvg     database.c: check_lavg
--   Daemon      fcron.c: a turn of main_loop, check_signal; suspend.c: check_suspend
--   Startup     database.c: set_next_exe_startup, reschedule_all_on_resume
--   EnvList     env_list.c: the environment variables of a fcrontab; subs.c: strcmp_until
--   Save        save.c: the saved files, written through a buffer
--   AddLine     conf.c: the checks of add_line_to_file
--   Load        conf.c: read_file; Load/Scheduled: add_line_to_file and read_file with the scheduling
--   Parser      fileconf.c: get_num, read_field; Parser/Values: get_time, get_bool
--   Strings     subs.c, fileconf.c: blanks, quotes, words, the values of options
--   Options     fileconf.c: read_opt, the options between the parentheses of a line of a fcrontab
--   Fcrontab    fileconf.c: read_file, get_line, and what reads each kind of line
--   Access      allow.c: who may use fcrontab
--   Commands    fcrondyn_svr.c: exe_cmd, the commands of a client of the daemon
--   Select      select.c: the descriptors that are watched
--   Tests       runs of the model and of its theorems on concrete data
--
-- A line is known by its number, as in C by its address. Times are natural numbers of seconds. A
-- function that may not return gives an Option.
--
-- Bounds and fuel: the search runs on fuel. search_fuel of Search/Ends counts four steps for each
-- minute of the years that the search may go through; where the day fields are joined by "and",
-- each step comes nearer to the end of the last year or to the next label. walk of Interval has
-- walk_fuel turns. test_jobs takes its fuel as an argument; the loops over u_list.c's lists take
-- one turn for each entry. read_file of conf.c has fuel for its fields; one turn for each byte of
-- the file and one more are enough, since a field has at least four bytes. read_field, get_time and
-- read_opt have fuel for the characters of the line, read_file of fileconf.c a turn for each
-- character of the fcrontab and one more. An unsigned char is decremented modulo 256. The sums of
-- the serial queue that go to a short int are bit patterns modulo 2^16. A write past the buffer of
-- save.c, or a time that overflows, is no result; where the code reads behind the bits of the days,
-- the model reads what follows them in the line. run_serial_jobs has a turn for each job of the
-- serial queue. The other counters of the code are small and are natural numbers.
--
-- Parameters: what SIGHUP, SIGUSR1, the saving of files and the socket do (Daemon.Files), localtime
-- and mktime of the C library (Clock), the values of rand (Env), the results of fork (Fcron), of
-- waitpid (wait_chld), of getloadavg (check_lavg) and of select (Select); the layout of short and
-- long in memory, an interface with its laws (Save.Layout), the results of write (Writer), and what
-- getc leaves for read (Load); root, the users of the system, the limits of runas and whether there
-- is a sendmail (Options.Caller), the texts that fgets gives (Access), and for the commands the
-- size of the lists and what the system answers (Commands.Server).
--
-- Not modelled: the connections of fcrondyn, their authentication and the parser of its commands
-- (fcrondyn.c and the rest of fcrondyn_svr.c), which are input and output on sockets; the directory
-- of saved files (the rest of conf.c); mails, processes, logging and memory (mail.c, job.c, log.c,
-- mem.c), which are calls of the system; and the command line tools (fcrontab.c and
-- convert-fcrontab.c).
pub mod Prelude
pub mod Bits
pub mod Opt
pub mod Calendar
pub mod Line
pub mod Period
pub mod JobQueue
pub mod Serial
pub mod UList
pub mod Search
pub mod Clock
pub mod Interval
pub mod State
pub mod Run
pub mod Enqueue
pub mod Schedule
pub mod Account
pub mod Jobs
pub mod Children
pub mod LoadAvg
pub mod Startup
pub mod Tests
pub mod Save
pub mod Strings
pub mod Access
pub mod Commands
pub mod Fcrontab
pub mod Options
pub mod AddLine
pub mod Daemon
pub mod Select
pub mod Parser
pub mod EnvList
pub mod Load
